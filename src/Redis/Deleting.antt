-- ===== src/Redis/Deleting.antt =====
-- What deleteAllJobs does to the value of a job's key
-- (jobbackendprovider/redisprovider/writer.go).
use minijob.Prelude.{
  ℕ, zero, suc, String, true, false, ◌≡◌, ◌≢◌, ◌<◌, ◌⊎◌, refl, ap, ◌∙◌, inl, inr, Option, none,
  some, List, [], ◌∷◌, if◌then◌else◌, contains, string_Eq, Bool-cases, Option-cases, arith,
}
use minijob.Redis.Ops.{StoredValue}
use minijob.Redis.Client.{Client, delete_page, delete_all_from, Missed, last, next, IsRedis}

module _ {R : Type 0} (client : Client R) (read : String → R → Option StoredValue) (k : String)
    (h : IsRedis client read k) where
  delete_page-ok :
      (keys : List String) (r : R)
      → (delete_page client keys r).0 ≡ true
      → read k (delete_page client keys r).1 ≡ (if contains k keys then none else read k r)
  unfolding delete_page
  delete_page-ok [] r e = refl
  delete_page-ok (key ∷ keys) r e = h.del_ok (key ∷ keys) r e

  delete_page-either :
      (keys : List String) (r : R)
      → (read k (delete_page client keys r).1 ≡ read k r)
        ⊎ (read k (delete_page client keys r).1 ≡ none)
  unfolding delete_page
  delete_page-either [] r = inl refl
  delete_page-either (key ∷ keys) r = elim (Bool-cases (client.del_keys (key ∷ keys) r).0) [
    | inr e ↦ h.del_failed (key ∷ keys) r e
    | inl e ↦ elim (Bool-cases (contains k (key ∷ keys))) [
      | inl c ↦ inr (h.del_ok (key ∷ keys) r e ∙ ap (λ b. if b then none else read k r) c)
      | inr c ↦ inl (h.del_ok (key ∷ keys) r e ∙ ap (λ b. if b then none else read k r) c)
    ]
  ]

  -- Keys are only deleted.
  pub delete_all-either :
      (n cursor : ℕ) (r : R)
      → (read k (delete_all_from client n cursor r).1 ≡ read k r)
        ⊎ (read k (delete_all_from client n cursor r).1 ≡ none)
  unfolding delete_all_from
  delete_all-either zero cursor r = inl refl
  delete_all-either (suc n) cursor r =
      let r1 = (client.scan cursor r).1 in
      elim (Option-cases (client.scan cursor r).0) [
        | inl e ↦ ground (arith, e, h.scan_reads cursor r)
        | inr ((keys, following), e) ↦
            let r2 = (delete_page client keys r1).1 in
            ground (
              arith,
              e,
              h.scan_reads cursor r,
              delete_page-either keys r1,
              delete_all-either n following r2,
            )
      ]

  -- A page that does not hold the key, at a moment when the key is there.
  page_seen :
      {cursor : ℕ} {r : R} (keys : List String) (following : ℕ) (later : R)
      → (client.scan cursor r).0 ≡ some (keys, following)
      → contains k keys ≡ false
      → (read k r ≡ none)
        ⊎ ((following ≡ 0 → Missed client read k cursor r)
            × (Missed client read k following later → Missed client read k cursor r))
  page_seen {cursor} {r} keys following later found out = elim (Option-cases (read k r)) [
    | inl e ↦ inl e
    | inr (v, e) ↦
        let there : read k r ≢ none = λ gone. ground (arith, e, gone) in
        inr (
          (λ z. last keys (found ∙ ap (λ i. some (keys, i)) z) there out),
          (λ missed. next keys following later found there out missed),
        )
  ]

  delete_all-ok :
      (n cursor : ℕ) (r : R)
      → (delete_all_from client n cursor r).0 ≡ true
      → (read k (delete_all_from client n cursor r).1 ≡ none) ⊎ Missed client read k cursor r
  unfolding delete_all_from
  delete_all-ok zero cursor r e = cc
  delete_all-ok (suc n) cursor r e =
      let r1 = (client.scan cursor r).1 in
      elim (Option-cases (client.scan cursor r).0) [
        | inl none_found ↦ ground (arith, e, none_found)
        | inr ((keys, following), found) ↦
            let r2 = (delete_page client keys r1).1 in
            ground (
              arith,
              e,
              found,
              h.scan_reads cursor r,
              delete_page-either keys r1,
              delete_page-ok keys r1,
              delete_all-either n following r2,
              delete_all-ok n following r2,
              page_seen keys following r2 found,
            )
      ]

  -- deleteAllJobs without an error.
  pub deleted :
      (n : ℕ) (r : R)
      → (delete_all_from client n 0 r).0 ≡ true
      → read k (delete_all_from client n 0 r).1 ≡ none
  deleted n r e = elim (delete_all-ok n 0 r e) [
    | inl gone ↦ gone
    | inr missed ↦ absurd (h.scan_complete r missed)
  ]

-- The iteration of SCAN ends: a number falls from call to call, though the pages are deleted between.
pub record IsFinite {R : Type 0} (client : Client R) : Type 0 where
  pub left : ℕ → R → ℕ
  pub fewer :
      (cursor following : ℕ) (r : R) (keys : List String)
      → (client.scan cursor r).0 ≡ some (keys, following)
      → following ≢ 0
      → left following (delete_page client keys (client.scan cursor r).1).1 < left cursor r

-- If the iteration ends, every bound that is large enough gives the same result: the loop of
-- deleteAllJobs, which has no bound, returns it.
pub delete_all_from-ends :
    {R : Type 0} (client : Client R) (h : IsFinite client) (n m cursor : ℕ) (r : R)
    → h.left cursor r < n
    → h.left cursor r < m
    → delete_all_from client n cursor r ≡ delete_all_from client m cursor r
unfolding delete_all_from
delete_all_from-ends client h zero m cursor r p q = absurd (omega (arith, p))
delete_all_from-ends client h (suc n) zero cursor r p q = absurd (omega (arith, q))
delete_all_from-ends client h (suc n) (suc m) cursor r p q =
    elim (Option-cases (client.scan cursor r).0) [
      | inl e ↦ ground (arith, e)
      | inr ((keys, following), e) ↦
          let r2 = (delete_page client keys (client.scan cursor r).1).1 in
          ground (
            arith,
            e,
            p,
            q,
            h.fewer cursor following r keys e,
            delete_all_from-ends client h n m following r2,
          )
    ]
