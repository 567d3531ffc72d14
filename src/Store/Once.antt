-- ===== src/Store/Once.antt =====
-- No migration is run twice, and none is left out (internal/store/store.go).
use nytrpg.Prelude.{
  Bool, Bool-cases, List, Option, [], ap, arith, false, if◌then◌else◌, inl, inr, max, none, refl,
  some, subst, suc, true, zero, ℕ, ◌++◌, ◌+◌, ◌-◌, ◌∙◌, ◌∷◌, ◌≡◌,
}
use nytrpg.Game.Duel.Invariant.{if_keeps}
use nytrpg.Store.{
  Opening, Schema, apply_migration, migrate, migrate_at, no_schema, openings, run_migrations,
}

-- n, n + 1 and so on, k of them.
abbrev pub count_up : ℕ → ℕ → List ℕ
count_up n zero = []
count_up n (suc k) = n ∷ count_up (suc n) k

abbrev pub version_of : Schema → ℕ
version_of s = elim s.version [ none ↦ 0 | some v ↦ v ]

-- Exactly the migrations below the version were committed, each once and in their order.
abbrev pub IsUpTo : Schema → Type 0
IsUpTo s = s.applied ≡ count_up 0 (version_of s)

count_up-suc : (n k : ℕ) → count_up n k ++ (n + k) ∷ [] ≡ count_up n (suc k)
count_up-suc n zero = let e : n + 0 ≡ n = omega arith in rw e refl
count_up-suc n (suc k) =
    let e : n + suc k ≡ suc n + k = omega arith in
    rw e (ap (λ (l : List ℕ). n ∷ l) (count_up-suc (suc n) k))

apply_migration-IsUpTo :
    (i : ℕ) (s : Schema) → s.version ≡ some i → IsUpTo s → IsUpTo (apply_migration i s)
apply_migration-IsUpTo i s at_i v =
    let e : i + 1 ≡ suc i = omega arith in
    let before : s.applied ≡ count_up 0 i = rw at_i at v in
    let start : 0 + i ≡ i = omega arith in
    rw (e, before)
      (subst (λ (k : ℕ). count_up 0 i ++ k ∷ [] ≡ count_up 0 (suc i)) start (count_up-suc 0 i))

module _ (commits : ℕ → Bool) where
  run_migrations-IsUpTo :
      (left i : ℕ) (s : Schema)
      → s.version ≡ some i
      → IsUpTo s
      → IsUpTo (run_migrations commits left i s).1
  unfolding run_migrations
  run_migrations-IsUpTo zero i s at_i v = v
  run_migrations-IsUpTo (suc left) i s at_i v =
      if_keeps (λ (r : Bool × Schema). IsUpTo r.1) (commits i)
        (run_migrations-IsUpTo left (i + 1) (apply_migration i s) refl
          (apply_migration-IsUpTo i s at_i v))
        v

  run_migrations-done :
      (left i : ℕ) (s : Schema)
      → s.version ≡ some i
      → (run_migrations commits left i s).0 ≡ true
      → version_of (run_migrations commits left i s).1 ≡ i + left
  unfolding run_migrations
  run_migrations-done zero i s at_i h = rw at_i (omega arith)
  run_migrations-done (suc left) i s at_i h = elim (Bool-cases (commits i)) [
    | inl works_ ↦
        let e : i + suc left ≡ i + 1 + left = omega arith in
        rw (works_, if◌then◌else◌, e)
          (run_migrations-done left (i + 1) (apply_migration i s) refl
            (rw (works_, if◌then◌else◌) at h))
    | inr fails ↦ absurd (not_done (rw (fails, if◌then◌else◌) at h))
  ]
    where
      not_done : false ≡ true → ⊥
      not_done e = cc

migrate_at-IsUpTo :
    (commits : ℕ → Bool) (total : ℕ) (version : Option ℕ) (s : Schema)
    → s.version ≡ version
    → IsUpTo s
    → IsUpTo (migrate_at commits total version s).1
migrate_at-IsUpTo commits total none s e v =
    let before : s.applied ≡ [] = rw e at v in
    run_migrations-IsUpTo commits total 0 (record s { version = some 0 }) refl before
migrate_at-IsUpTo commits total (some n) s e v = run_migrations-IsUpTo commits (total - n) n s e v

migrate_at-done :
    (commits : ℕ → Bool) (total : ℕ) (version : Option ℕ) (s : Schema)
    → s.version ≡ version
    → (migrate_at commits total version s).0 ≡ true
    → version_of (migrate_at commits total version s).1 ≡ max total (version_of s)
migrate_at-done commits total none s e h =
    let at_zero : version_of s ≡ 0 = rw e refl in
    run_migrations-done commits total 0 (record s { version = some 0 }) refl h
    ∙ omega (arith, at_zero)
migrate_at-done commits total (some n) s e h =
    let at_n : version_of s ≡ n = rw e refl in
    run_migrations-done commits (total - n) n s e h ∙ omega (arith, at_n)

migrate-IsUpTo : (o : Opening) (s : Schema) → IsUpTo s → IsUpTo (migrate o.ok o.commits o.count s).1
unfolding migrate
migrate-IsUpTo o s v =
    if_keeps (λ (r : Bool × Schema). IsUpTo r.1) o.ok
      (migrate_at-IsUpTo o.commits o.count s.version s refl v) v

openings-IsUpTo : (os : List Opening) (s : Schema) → IsUpTo s → IsUpTo (openings os s)
unfolding openings
openings-IsUpTo [] s v = v
openings-IsUpTo (o ∷ os) s v =
    openings-IsUpTo os (migrate o.ok o.commits o.count s).1 (migrate-IsUpTo o s v)

-- Whatever failed in earlier starts, of this release or of others: once `migrate` works, the version
-- is the number of this release's migrations, or a later one that was there before, and exactly the
-- migrations below it were committed, each once and in their order.
pub openings-migrate :
    (os : List Opening) (commits : ℕ → Bool) (total : ℕ)
    → (migrate true commits total (openings os no_schema)).0 ≡ true
    → IsUpTo (migrate true commits total (openings os no_schema)).1
      × (version_of (migrate true commits total (openings os no_schema)).1
          ≡ max total (version_of (openings os no_schema)))
unfolding migrate
openings-migrate os commits total h =
    let s = openings os no_schema in
    (
      migrate_at-IsUpTo commits total s.version s refl (openings-IsUpTo os no_schema refl),
      migrate_at-done commits total s.version s refl h,
    )
