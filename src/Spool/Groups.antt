-- ===== src/Spool/Groups.antt =====
-- The events of a capture by their sessions, in the order in which the sessions first appear.
use avraham_sql_tools.Base.{
  ℕ, suc, Bool, true, false, ◌||◌, List, [], ◌∷◌, ◌++◌, map, append_assoc, append-nil, ◌≡◌, refl,
  sym, ap, ◌∙◌, arith, ◌==◌, inl, inr, Bool-cases, if◌then◌else◌, if_lem, length, drop, drop_prefix,
}
use avraham_sql_tools.Spool.{Event, Filters, matches}
use mathlib.Core.Bool.{true≢false}

abbrev pub Group : Type 0
Group = ℕ × List Event

unfoldable pub add_event : Event → List Group → List Group
add_event e [] = (e.session_id, e ∷ []) ∷ []
add_event e ((id, es) ∷ gs) =
    let later = (id, es) ∷ add_event e gs in
    if id == e.session_id then (id, es ++ e ∷ []) ∷ gs else later

unfoldable pub has : ℕ → List Group → Bool
has id [] = false
has id (g ∷ gs) = g.0 == id || has id gs

-- No session has two groups.
unfoldable pub Distinct : List Group → Type 0
Distinct [] = Unit
Distinct (g ∷ gs) = (has g.0 gs ≡ false) × Distinct gs

pub Distinct-nil : Distinct []
unfolding Distinct
Distinct-nil = tt

-- More events in the groups, and perhaps more groups.
unfoldable pub Extends : List Group → List Group → Type 0
Extends [] full = Unit
Extends (d ∷ ds) [] = ⊥
Extends (d ∷ ds) (a ∷ full) =
    (a.0 ≡ d.0) × ((todo : List Event) × (a.1 ≡ d.1 ++ todo)) × Extends ds full

pub Extends-refl : (gs : List Group) → Extends gs gs
unfolding Extends
Extends-refl [] = tt
Extends-refl (g ∷ gs) = (refl, ([], sym (append-nil g.1)), Extends-refl gs)

pub Extends-trans : (ds es full : List Group) → Extends ds es → Extends es full → Extends ds full
unfolding Extends
Extends-trans [] es full x y = tt
Extends-trans (d ∷ ds) [] full x y = elim x [ ]
Extends-trans (d ∷ ds) (e ∷ es) [] x y = elim y [ ]
Extends-trans (d ∷ ds) (e ∷ es) (a ∷ full) (i, (t, p), x) (j, (u, q), y) =
    (j ∙ i, (t ++ u, q ∙ ap (λ l. l ++ u) p ∙ append_assoc d.1 t u), Extends-trans ds es full x y)

pub Extends-add_event : (e : Event) (gs : List Group) → Extends gs (add_event e gs)
unfolding Extends add_event
Extends-add_event e [] = tt
Extends-add_event e ((id, es) ∷ gs) =
    if_lem (Extends ((id, es) ∷ gs)) (id == e.session_id) (refl, (e ∷ [], refl), Extends-refl gs)
      (refl, ([], sym (append-nil es)), Extends-add_event e gs)

has-add_event :
    (id : ℕ) (e : Event) (gs : List Group)
    → e.session_id == id ≡ false
    → has id gs ≡ false
    → has id (add_event e gs) ≡ false
unfolding has add_event
has-add_event id e [] h k = ground (arith, h)
has-add_event id e ((j, es) ∷ gs) h k = elim (Bool-cases (j == id)) [
  | inl same ↦ absurd (true≢false (sym (rw same refl) ∙ k))
  | inr other ↦
      let k' : has id gs ≡ false = rw other at k in
      if_lem (λ l. has id l ≡ false) (j == e.session_id) (rw (other, k') refl)
        (rw (other, has-add_event id e gs h k') refl)
]

pub Distinct-add_event : (e : Event) (gs : List Group) → Distinct gs → Distinct (add_event e gs)
unfolding Distinct add_event has
Distinct-add_event e [] w = (refl, tt)
Distinct-add_event e ((id, es) ∷ gs) (fresh, w) = elim (Bool-cases (id == e.session_id)) [
  | inl same ↦ rw same (fresh, w)
  | inr other ↦
      rw other (has-add_event id e gs (ground (arith, other)) fresh, Distinct-add_event e gs w)
]

-- An event in front of more groups, where its session has one and where it has none.
add_event-append :
    (e : Event) (gs bl : List Group)
    → has e.session_id gs ≡ true
    → add_event e (gs ++ bl) ≡ add_event e gs ++ bl
unfolding add_event has
add_event-append e [] bl h = cc
add_event-append e ((id, es) ∷ gs) bl h = elim (Bool-cases (id == e.session_id)) [
  | inl same ↦ rw same refl
  | inr other ↦ rw other (ap (◌∷◌ (id, es)) (add_event-append e gs bl (rw other at h)))
]

length-add_event :
    (e : Event) (gs : List Group) → has e.session_id gs ≡ true → length (add_event e gs) ≡ length gs
unfolding add_event has
length-add_event e [] h = cc
length-add_event e ((id, es) ∷ gs) h = elim (Bool-cases (id == e.session_id)) [
  | inl same ↦ rw same refl
  | inr other ↦ rw other (ap suc (length-add_event e gs (rw other at h)))
]

add_event-new :
    (e : Event) (gs bl : List Group)
    → has e.session_id gs ≡ false
    → (add_event e gs ≡ gs ++ (e.session_id, e ∷ []) ∷ [])
      × (add_event e (gs ++ (e.session_id, []) ∷ bl) ≡ gs ++ (e.session_id, e ∷ []) ∷ bl)
unfolding add_event has
add_event-new e [] bl h =
    let same : e.session_id == e.session_id ≡ true = ground arith in (refl, rw same refl)
add_event-new e ((id, es) ∷ gs) bl h = elim (Bool-cases (id == e.session_id)) [
  | inl same ↦ absurd (true≢false (sym (rw same refl) ∙ h))
  | inr other ↦
      let r = add_event-new e gs bl (rw other at h) in
      rw other (ap (◌∷◌ (id, es)) r.0, ap (◌∷◌ (id, es)) r.1)
]

-- The same sessions, without events.
abbrev pub blanks : List Group → List Group
blanks = map (λ g. (g.0, []))

module _ (filters : Filters) where
  unfoldable pub collect : List Event → List Group → List Group
  unfolding add_event matches
  collect [] gs = gs
  collect (e ∷ es) gs = collect es (if matches filters e then add_event e gs else gs)

  pub collect_matching :
      (e : Event) (es : List Event) (gs : List Group)
      → matches filters e ≡ true
      → collect (e ∷ es) gs ≡ collect es (add_event e gs)
  unfolding collect
  collect_matching e es gs m = ap (λ b. collect es (if b then add_event e gs else gs)) m

  pub collect_filtered :
      (e : Event) (es : List Event) (gs : List Group)
      → matches filters e ≡ false
      → collect (e ∷ es) gs ≡ collect es gs
  unfolding collect
  collect_filtered e es gs m = ap (λ b. collect es (if b then add_event e gs else gs)) m

  pub Extends-collect : (es : List Event) (gs : List Group) → Extends gs (collect es gs)
  unfolding collect
  Extends-collect [] gs = Extends-refl gs
  Extends-collect (e ∷ es) gs =
      let gs' = if matches filters e then add_event e gs else gs in
      Extends-trans gs gs' (collect es gs')
        (if_lem (Extends gs) (matches filters e) (Extends-add_event e gs) (Extends-refl gs))
        (Extends-collect es gs')

  pub Distinct-collect :
      (es : List Event) (gs : List Group) → Distinct gs → Distinct (collect es gs)
  unfolding collect
  Distinct-collect [] gs w = w
  Distinct-collect (e ∷ es) gs w =
      Distinct-collect es (if matches filters e then add_event e gs else gs)
        (if_lem Distinct (matches filters e) (Distinct-add_event e gs w) w)

Extends-drop :
    (gs full : List Group) (g : Group)
    → Extends (gs ++ g ∷ []) full
    → blanks (drop (length gs) full) ≡ (g.0, []) ∷ blanks (drop (length (gs ++ g ∷ [])) full)
unfolding Extends
Extends-drop [] [] g x = elim x [ ]
Extends-drop [] (a ∷ full) g (i, p, x) = ap (λ id. (id, []) ∷ blanks full) i
Extends-drop (d ∷ gs) [] g x = elim x [ ]
Extends-drop (d ∷ gs) (a ∷ full) g (i, p, x) = Extends-drop gs full g x

module _ (filters : Filters) where
  -- Collecting again, from the groups of some events and empty groups for the sessions to come.
  collect_again :
      (es : List Event) (gs : List Group)
      → collect filters es (gs ++ blanks (drop (length gs) (collect filters es gs)))
        ≡ collect filters es gs
  unfolding collect
  collect_again [] gs =
      let ended : drop (length gs) gs ≡ [] =
        ap (drop (length gs)) (sym (append-nil gs)) ∙ drop_prefix gs [] in
      ap (λ l. gs ++ blanks l) ended ∙ append-nil gs
  collect_again (e ∷ es) gs = elim (Bool-cases (matches filters e)) [
    | inr other ↦ rw other (collect_again es gs)
    | inl matching ↦ rw matching (elim (Bool-cases (has e.session_id gs)) [
      | inl known ↦
          let full = collect filters es (add_event e gs) in
          let bl = blanks (drop (length gs) full) in
          ap (collect filters es) (
            add_event-append e gs bl known
            ∙ ap (λ n. add_event e gs ++ blanks (drop n full)) (sym (length-add_event e gs known)))
          ∙ collect_again es (add_event e gs)
      | inr new ↦
          let g : Group = (e.session_id, e ∷ []) in
          let gs' = gs ++ g ∷ [] in
          let full = collect filters es gs' in
          let bl = blanks (drop (length gs') full) in
          let added = add_event-new e gs bl new in
          let dropped = Extends-drop gs full g (Extends-collect filters es gs') in
          let same = ap (collect filters es) added.0 in
          ap (λ l. collect filters es (add_event e (gs ++ blanks (drop (length gs) l)))) same
          ∙ ap (λ l. collect filters es (add_event e (gs ++ l))) dropped
          ∙ ap (collect filters es) (added.1 ∙ sym (append_assoc gs (g ∷ []) bl))
          ∙ collect_again es gs'
          ∙ sym same
    ])
  ]

  -- Pass B begins with empty groups for all sessions, and ends with the groups of pass A.
  pub collect-blanks :
      (es : List Event)
      → collect filters es (blanks (collect filters es [])) ≡ collect filters es []
  collect-blanks es = collect_again es []
