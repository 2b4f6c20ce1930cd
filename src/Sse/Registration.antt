-- ===== src/Sse/Registration.antt =====
-- `Register`: which lists of streams are accepted, and what the registry answers afterwards.
use mathlib.Core.Path.{subst}
use kratos_core.Prelude.{
  String, ◌≡◌, ◌≢◌, refl, sym, ◌∙◌, ◌↔◌, ◌⊎◌, inl, inr, true, false, Option, none, some, List, [],
  ◌∷◌, map, arith, Bool-cases, Option-cases, In, All,
}
use kratos_core.Prelude.Int.{ℤ}
use kratos_core.Prelude.Eq.{◌==◌, ==_iff, string_eq, contains, lookup, insert, lookup-insert}
use kratos_core.Prelude.Error.{Error}
use kratos_core.Sse.{
  Stream, Registry, check_streams, add_streams, add_checked, register, stream_id, resolve,
}

-- A stream that the registry can take.
abbrev pub Free : Registry → Stream → Type 0
Free r s = (s.id ≢ "") × (lookup s.id r ≡ none)

-- No two of the streams have the same identifier.
abbrev pub Distinct : List Stream → Type 0
Distinct [] = Unit
Distinct (s ∷ rest) = All (λ (t : Stream). s.id ≢ t.id) rest × Distinct rest

-- One round of the loop that goes on.
check_streams-cons :
    (r : Registry) (registered : List String) (s : Stream) (rest : List (Option Stream))
    → (check_streams r registered (some s ∷ rest) ≡ none) ↔ (
        (s.id ≢ "")
        × (lookup s.id r ≡ none)
        × (contains registered s.id ≡ false)
        × (check_streams r (s.id ∷ registered) rest ≡ none))
unfolding check_streams
check_streams-cons r registered s rest = elim (Bool-cases (s.id == "")) [
  | inl a ↦
      (λ h. absurd (let h' = rw a at h in cc), λ h. absurd (ground (arith, h.0, a, ==_iff s.id "")))
  | inr a ↦ elim (Option-cases (lookup s.id r)) [
    | inr (t, b) ↦ (λ h. absurd (let h' = rw (a, b) at h in cc), λ h. absurd (let c = h.1 in cc))
    | inl b ↦ elim (Bool-cases (contains registered s.id)) [
      | inl c ↦ (λ h. absurd (let h' = rw (a, b, c) at h in cc), λ h. absurd (let d = h.2 in cc))
      | inr c ↦ (
        λ h. ((λ e. ground (arith, e, a, ==_iff s.id "")), b, c, rw (a, b, c) at h),
        λ h. rw (a, b, c) h.3,
      )
    ]
  ]
]

-- No stream has an identifier that was met before.
Unmet : List String → List Stream → Type 0
Unmet registered ss = All (λ (s : Stream). contains registered s.id ≡ false) ss

Unmet-cons :
    (id : String) (registered : List String) (ss : List Stream)
    → Unmet (id ∷ registered) ss ↔ (Unmet registered ss × All (λ (t : Stream). id ≢ t.id) ss)
unfolding Unmet contains
Unmet-cons id registered [] = (λ h. (tt, tt), λ h. tt)
Unmet-cons id registered (s ∷ rest) =
    let more = Unmet-cons id registered rest in
    (
      λ (a, h).
          let (u, d) = more.0 h in
          ((ground (arith, a), u), ((λ e. ground (arith, a, e, ==_iff id s.id)), d)),
      λ ((a, u), (d, e)). (ground (arith, a, d, ==_iff id s.id), more.1 (u, e)),
    )

check_streams-none :
    (r : Registry) (registered : List String) (ss : List Stream)
    → (check_streams r registered (map some ss) ≡ none)
      ↔ (All (Free r) ss × Distinct ss × Unmet registered ss)
unfolding check_streams Unmet
check_streams-none r registered [] = (λ h. (tt, tt, tt), λ h. refl)
check_streams-none r registered (s ∷ rest) =
    let one = check_streams-cons r registered s (map some rest) in
    let more = check_streams-none r (s.id ∷ registered) rest in
    let met = Unmet-cons s.id registered rest in
    (
      λ h.
          let (a, b, c, later) = one.0 h in
          let (free, distinct, unmet) = more.0 later in
          let (u, d) = met.0 unmet in (((a, b), free), (d, distinct), (c, u)),
      λ (((a, b), free), (d, distinct), (c, u)).
          one.1 (a, b, c, more.1 (free, distinct, met.1 (u, d))),
    )

Unmet-nil : (ss : List Stream) → Unmet [] ss
unfolding Unmet contains
Unmet-nil [] = tt
Unmet-nil (s ∷ rest) = (refl, Unmet-nil rest)

add_checked-none :
    (o : Option Error) (r : Registry) (streams : List (Option Stream))
    → ((add_checked o r streams).0 ≡ none) ↔ (o ≡ none)
unfolding add_checked
add_checked-none none r streams = (λ h. refl, λ h. refl)
add_checked-none (some e) r streams = (λ h. absurd cc, λ h. absurd cc)

-- Streams are registered exactly if each has an identifier that the registry does not hold, and
-- no two have the same.
pub register-Free :
    (r : Registry) (ss : List Stream)
    → ((register r (map some ss)).0 ≡ none) ↔ (All (Free r) ss × Distinct ss)
unfolding register
register-Free r ss =
    let c = check_streams-none r [] ss in
    let added = add_checked-none (check_streams r [] (map some ss)) r (map some ss) in
    (λ h. let (a, b, u) = c.0 (added.0 h) in (a, b), λ (a, b). added.1 (c.1 (a, b, Unmet-nil ss)))

check_streams_absent :
    (r : Registry) (registered : List String) (streams : List (Option Stream))
    → In none streams
    → check_streams r registered streams ≢ none
unfolding check_streams
check_streams_absent r registered [] i h = elim i [ ]
check_streams_absent r registered (none ∷ rest) i h = cc
check_streams_absent r registered (some s ∷ rest) (inl e) h = cc
check_streams_absent r registered (some s ∷ rest) (inr i) h =
    check_streams_absent r (s.id ∷ registered) rest i
      ((check_streams-cons r registered s rest).0 h).3

lookup-add_streams :
    (id : String) (r : Registry) (ss : List Stream)
    → All (λ (t : Stream). id ≢ t.id) ss
    → lookup id (add_streams r (map some ss)) ≡ lookup id r
unfolding add_streams
lookup-add_streams id r [] d = refl
lookup-add_streams id r (s ∷ rest) (d, e) =
    lookup-add_streams id (insert s.id s r) rest e
    ∙ lookup-insert s.id id s r
    ∙ ground (arith, d, ==_iff s.id id)

add_streams_found :
    (r : Registry) (ss : List Stream) (s : Stream)
    → Distinct ss
    → In s ss
    → lookup s.id (add_streams r (map some ss)) ≡ some s
unfolding add_streams
add_streams_found r [] s d i = elim i [ ]
add_streams_found r (t ∷ rest) s (d, e) (inr i) = add_streams_found (insert t.id t r) rest s e i
add_streams_found r (t ∷ rest) s (d, e) (inl p) =
    subst (λ x. lookup x.id (add_streams (insert t.id t r) (map some rest)) ≡ some x) (sym p)
      (lookup-add_streams t.id (insert t.id t r) rest d
        ∙ lookup-insert t.id t.id t r
        ∙ ground (arith, ==_iff t.id t.id))

-- A stream that is registered has no identifier that is free.
Free-ne :
    (r : Registry) (s : Stream) (ss : List Stream)
    → lookup s.id r ≡ some s
    → All (Free r) ss
    → All (λ (t : Stream). s.id ≢ t.id) ss
Free-ne r s [] h f = tt
Free-ne r s (t ∷ rest) h ((a, b), f) = (
  (λ e. let c : lookup t.id r ≡ some s = subst (λ x. lookup x r ≡ some s) e h in cc),
  Free-ne r s rest h f,
)

-- After a registration that succeeds each of its streams answers under its own identifier, and
-- each stream that was registered before still does.
pub resolve-register :
    (r : Registry) (ss : List Stream) (s : Stream) (channel : String) (user tenant : ℤ)
    → (register r (map some ss)).0 ≡ none
    → In s ss ⊎ (lookup s.id r ≡ some s)
    → resolve (register r (map some ss)).1 s.id channel user tenant
      ≡ (true, stream_id s channel user tenant)
unfolding resolve register
resolve-register r ss s channel user tenant h i =
    let c = (add_checked-none (check_streams r [] (map some ss)) r (map some ss)).0 h in
    let (free, distinct, _) = (check_streams-none r [] ss).0 c in
    let found : lookup s.id (add_streams r (map some ss)) ≡ some s = elim i [
      | inl new ↦ add_streams_found r ss s distinct new
      | inr old ↦ lookup-add_streams s.id r ss (Free-ne r s ss old free) ∙ old
    ] in
    rw (c, found) refl

-- A registration that fails, as one with a nil stream does, leaves the registry as it was.
pub register_err :
    (r : Registry) (streams : List (Option Stream))
    → ((register r streams).0 ≢ none) ⊎ In none streams
    → ((register r streams).0 ≢ none) × ((register r streams).1 ≡ r)
unfolding register
register_err r streams h = elim (Option-cases (check_streams r [] streams)) [
  | inl c ↦ absurd (elim h [
    | inl n ↦ n ((add_checked-none (check_streams r [] streams) r streams).1 c)
    | inr i ↦ check_streams_absent r [] streams i c
  ])
  | inr (e, c) ↦
      (λ n. let n' = (add_checked-none (check_streams r [] streams) r streams).0 n in cc, rw c refl)
]
