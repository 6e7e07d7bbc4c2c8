-- ===== src/Redis/Partly.antt =====
-- The first writes of a list, as pipelines of commands run them
-- (jobbackendprovider/redisprovider/writer.go).
use minijob.Prelude.{
  ℕ, zero, suc, String, false, ◌≡◌, refl, ap, ◌∙◌, Option, List, [], ◌∷◌, ◌++◌, map, take,
  string_Eq, arith,
}
use minijob.Redis.Ops.{StoredValue, WriteOp, written, after, Partly}
use minijob.Redis.Client.{command, set_by, run}

pub Partly-left :
    (k : String) (xs ys : List WriteOp) (v w : Option StoredValue)
    → Partly k xs v w
    → Partly k (xs ++ ys) v w
Partly-left k xs ys v w (zero, e) = (0, e)
Partly-left k [] ys v w (suc n, e) = (0, e)
Partly-left k (x ∷ xs) ys v w (suc n, e) =
    let (m, same) = Partly-left k xs ys (written k x v) w (n, e) in (suc m, same)

pub Partly-right :
    (k : String) (xs ys : List WriteOp) (v w : Option StoredValue)
    → Partly k ys (after k xs v) w
    → Partly k (xs ++ ys) v w
Partly-right k [] ys v w h = h
Partly-right k (x ∷ xs) ys v w h =
    let (m, same) = Partly-right k xs ys (written k x v) w h in (suc m, same)

-- No write of the list deletes every job.
abbrev pub ArePlain : List WriteOp → Type 0
ArePlain [] = Unit
ArePlain (op ∷ ops) = (op.del_all ≡ false) × ArePlain ops

pub append-ArePlain :
    (ops : List WriteOp) (op : WriteOp)
    → ArePlain ops
    → op.del_all ≡ false
    → ArePlain (ops ++ op ∷ [])
append-ArePlain [] op h e = (e, tt)
append-ArePlain (o ∷ ops) op (p, h) e = (p, append-ArePlain ops op h e)

set_by-command :
    (k : String) (op : WriteOp) (v : Option StoredValue)
    → op.del_all ≡ false
    → set_by k (command op) v ≡ written k op v
set_by-command k op v e = ground (arith, e)

pub run-command :
    (k : String) (ops : List WriteOp) (v : Option StoredValue)
    → ArePlain ops
    → run k (map command ops) v ≡ after k ops v
run-command k [] v h = refl
run-command k (op ∷ ops) v (e, h) =
    ap (run k (map command ops)) (set_by-command k op v e) ∙ run-command k ops (written k op v) h

pub run-take-command :
    (k : String) (n : ℕ) (ops : List WriteOp) (v : Option StoredValue)
    → ArePlain ops
    → run k (take n (map command ops)) v ≡ after k (take n ops) v
run-take-command k zero ops v h = refl
run-take-command k (suc n) [] v h = refl
run-take-command k (suc n) (op ∷ ops) v (e, h) =
    ap (run k (take n (map command ops))) (set_by-command k op v e)
    ∙ run-take-command k n ops (written k op v) h

pub map-command-append :
    (ops : List WriteOp) (op : WriteOp)
    → map command (ops ++ op ∷ []) ≡ map command ops ++ command op ∷ []
map-command-append [] op = refl
map-command-append (o ∷ ops) op = ap (command o ∷◌) (map-command-append ops op)

pub append_one : (xs ys : List WriteOp) (op : WriteOp) → (xs ++ op ∷ []) ++ ys ≡ xs ++ op ∷ ys
append_one [] ys op = refl
append_one (x ∷ xs) ys op = ap (x ∷◌) (append_one xs ys op)
