-- ===== src/Permissions/Laws.antt =====
-- The escalation guard: what may be granted is what the granter has.
use stello_kitchens.Prelude.Texts.{same_text, same_text-eq}
use stello_kitchens.Prelude.{
  ◌≡◌, ◌↔◌, refl, ap, Bool, true, false, not, ◌||◌, List, [], ◌∷◌, arith, all, keep, Bool-cases,
  inl, inr, if◌then◌else◌,
}
use mathlib.Core.Path.{fun_ext}
use stello_kitchens.Permissions.{
  Key, wildcard, includes, has_permission, dedup, missing_permissions, is_owner_level,
}

keep-eq-nil : (q : Key → Bool) (l : List Key) → (keep q l ≡ []) ↔ (all (λ k. not (q k)) l ≡ true)
keep-eq-nil q [] = (λ e. refl, λ e. refl)
keep-eq-nil q (k ∷ ks) = ground (arith, keep-eq-nil q ks)

all-keep_other :
    (q : Key → Bool) (k : Key) (l : List Key)
    → q k ≡ true
    → all q (keep (λ j. not (same_text j k)) l) ≡ all q l
all-keep_other q k [] h = refl
all-keep_other q k (j ∷ js) h = elim (Bool-cases (same_text j k)) [
  | inl repeated ↦ ground (arith, all-keep_other q k js h, ap q (same_text-eq j k repeated))
  | inr other ↦ ground (arith, all-keep_other q k js h)
]

-- A test of all keys does not see repetitions.
all-dedup : (q : Key → Bool) (l : List Key) → all q (dedup l) ≡ all q l
unfolding dedup
all-dedup q [] = refl
all-dedup q (k ∷ ks) = ground (arith, all-dedup q ks, all-keep_other q k (dedup ks))

all_owner :
    (held requested : List Key)
    → includes held wildcard ≡ true
    → all
        (λ p. if same_text p wildcard then is_owner_level held else has_permission held p)
        requested
      ≡ true
unfolding has_permission is_owner_level
all_owner held [] h = refl
all_owner held (p ∷ ps) h = ground (arith, all_owner held ps h)

agree_at :
    (held : List Key) (p : Key)
    → includes held wildcard ≡ false
    → not (same_text p wildcard || not (includes held p)) ≡ (
        if same_text p wildcard
        then includes held wildcard
        else includes held wildcard || includes held p)
agree_at held p h = ground arith

-- A grant of `requested` by someone who holds `held` passes the guard exactly when every key of it
-- is one that `held` grants, the wildcard only by the wildcard.
pub missing_permissions_iff :
    (held requested : List Key)
    → (missing_permissions held requested ≡ []) ↔ (
        all
          (λ p. if same_text p wildcard then is_owner_level held else has_permission held p)
          requested
        ≡ true)
unfolding missing_permissions has_permission is_owner_level
missing_permissions_iff held requested =
    let bad = λ (p : Key). same_text p wildcard || not (includes held p) in
    let good = λ (p : Key).
      if same_text p wildcard
      then includes held wildcard
      else includes held wildcard || includes held p in
    elim (Bool-cases (includes held wildcard)) [
      | inl owner ↦ ground (arith, all_owner held requested owner)
      | inr other ↦
          let agree : (λ (p : Key). not (bad p)) ≡ good = fun_ext (λ p. agree_at held p other) in
          ground (
            arith,
            keep-eq-nil bad (dedup requested),
            all-dedup (λ p. not (bad p)) requested,
            ap (λ f. all f requested) agree,
          )
    ]
