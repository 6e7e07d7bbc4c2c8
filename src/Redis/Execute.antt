-- ===== src/Redis/Execute.antt =====
-- What the writer's commands do to the value of a job's key
-- (jobbackendprovider/redisprovider/writer.go).
use minijob.Prelude.{
  ℕ, suc, String, Bool, true, false, ◌≡◌, refl, sym, ap, ◌∙◌, inl, inr, Option, none, List, [], ◌∷◌,
  ◌++◌, map, take, string_Eq, Bool-cases, arith,
}
use mathlib.Core.Path.{subst}
use minijob.Redis.Ops.{StoredValue, WriteOp, written, after, after-append, Partly}
use minijob.Redis.Partly.{
  Partly-left, Partly-right, ArePlain, append-ArePlain, run-command, run-take-command,
  map-command-append, append_one,
}
use minijob.Redis.Client.{Client, command, delete_all_from, flush, execute_from, execute, IsRedis}
use minijob.Redis.Deleting.{delete_all-either, deleted}

module _ {R : Type 0} (client : Client R) (read : String → R → Option StoredValue) (k : String)
    (h : IsRedis client read k) where
  flush-ok :
      (sent : List WriteOp) (r : R)
      → ArePlain sent
      → (flush client (map command sent) r).0 ≡ true
      → read k (flush client (map command sent) r).1 ≡ after k sent (read k r)
  unfolding flush
  flush-ok [] r p e = refl
  flush-ok (op ∷ sent) r p e =
      h.exec_ok (map command (op ∷ sent)) r e ∙ run-command k (op ∷ sent) (read k r) p

  flush-failed :
      (sent : List WriteOp) (r : R)
      → ArePlain sent
      → (flush client (map command sent) r).0 ≡ false
      → Partly k sent (read k r) (read k (flush client (map command sent) r).1)
  unfolding flush
  flush-failed [] r p e = (0, refl)
  flush-failed (op ∷ sent) r p e =
      let (n, same) = h.exec_failed (map command (op ∷ sent)) r e in
      (n, same ∙ run-take-command k n (op ∷ sent) (read k r) p)

  -- What an execution leaves for the key: all the writes, or after an error some of the first.
  abbrev Outcome : List WriteOp → R → Bool × R → Type 0
  Outcome ops r (ok, r') =
      (ok ≡ true → read k r' ≡ after k ops (read k r))
      × (ok ≡ false → Partly k ops (read k r) (read k r'))

  failed :
      (ops : List WriteOp) (r r' : R)
      → Partly k ops (read k r) (read k r')
      → Outcome ops r (false, r')
  failed ops r r' partly = (λ e. cc, λ e. partly)

  emptied : (op : WriteOp) → op.del_all ≡ true → (v : Option StoredValue) → written k op v ≡ none
  emptied op e v = ground (arith, e)

  -- deleteAllJobs has failed.
  cut_short :
      (n : ℕ) (op : WriteOp) (ops : List WriteOp) (v : Option StoredValue) (r : R)
      → op.del_all ≡ true
      → read k r ≡ v
      → Partly k (op ∷ ops) v (read k (delete_all_from client n 0 r).1)
  cut_short n op ops v r e same = elim (delete_all-either client read k h n 0 r) [
    | inl kept ↦ (0, kept ∙ same)
    | inr gone ↦ (1, gone ∙ sym (emptied op e v))
  ]

  -- After every job is deleted client read k h, the rest starts from nothing.
  restarted :
      (sent : List WriteOp) (op : WriteOp) (ops : List WriteOp) (r r' : R) (result : Bool × R)
      → op.del_all ≡ true
      → read k r' ≡ none
      → Outcome ops r' result
      → Outcome (sent ++ op ∷ ops) r result
  restarted sent op ops r r' result e gone (all, partly) =
      let start = gone ∙ sym (emptied op e (after k sent (read k r))) in
      (
        λ ok. all ok ∙ ap (after k ops) start ∙ sym (after-append k sent (op ∷ ops) (read k r)),
        λ error.
            let (n, same) = partly error in
            Partly-right k sent (op ∷ ops) (read k r) (read k result.1)
              (suc n, same ∙ ap (after k (take n ops)) start),
      )

  append-nil : (xs : List WriteOp) → xs ++ [] ≡ xs
  append-nil [] = refl
  append-nil (x ∷ xs) = ap (x ∷◌) (append-nil xs)

  execute_from-Outcome :
      (calls : ℕ) (sent ops : List WriteOp) (r : R)
      → ArePlain sent
      → Outcome (sent ++ ops) r (execute_from client calls (map command sent) ops r)
  unfolding execute_from
  execute_from-Outcome calls sent [] r p =
      subst (λ ops. Outcome ops r (flush client (map command sent) r)) (sym (append-nil sent))
        (flush-ok sent r p, flush-failed sent r p)
  execute_from-Outcome calls sent (op ∷ ops) r p = elim (Bool-cases op.del_all) [
    | inr e ↦ simp (e) (
        subst
          (λ zs.
            Outcome zs r (execute_from client calls (map command sent ++ command op ∷ []) ops r))
          (append_one sent ops op)
          (subst
            (λ pipe. Outcome ((sent ++ op ∷ []) ++ ops) r (execute_from client calls pipe ops r))
            (map-command-append sent op)
            (execute_from-Outcome calls (sent ++ op ∷ []) ops r (append-ArePlain sent op p e))))
    | inl e ↦ elim (Bool-cases (flush client (map command sent) r).0) [
      | inr f ↦
          simp (e, f)
            (failed (sent ++ op ∷ ops) r (flush client (map command sent) r).1 (
              Partly-left k sent (op ∷ ops) (read k r)
                (read k (flush client (map command sent) r).1) (flush-failed sent r p f)))
      | inl f ↦
          let r1 = (flush client (map command sent) r).1 in
          let sent_all = flush-ok sent r p f in
          elim (Bool-cases (delete_all_from client calls 0 r1).0) [
            | inr d ↦
                simp (e, f, d)
                  (failed (sent ++ op ∷ ops) r (delete_all_from client calls 0 r1).1 (
                    Partly-right k sent (op ∷ ops) (read k r)
                      (read k (delete_all_from client calls 0 r1).1)
                      (cut_short calls op ops (after k sent (read k r)) r1 e sent_all)))
            | inl d ↦
                simp (e, f, d)
                  (restarted sent op ops r (delete_all_from client calls 0 r1).1
                    (execute_from client calls [] ops (delete_all_from client calls 0 r1).1) e
                    (deleted client read k h calls r1 d)
                    (execute_from-Outcome calls [] ops (delete_all_from client calls 0 r1).1 tt))
          ]
    ]
  ]

  -- An execution without an error leaves the key as all the writes in order make it; one with an
  -- error leaves it as some of the first writes make it, whatever the bound on the calls of SCAN.
  pub execute-Outcome :
      (calls : ℕ) (ops : List WriteOp) (r : R)
      → ((execute client calls ops r).0 ≡ true
          → read k (execute client calls ops r).1 ≡ after k ops (read k r))
        × ((execute client calls ops r).0 ≡ false
            → Partly k ops (read k r) (read k (execute client calls ops r).1))
  execute-Outcome calls ops r = execute_from-Outcome calls [] ops r tt
