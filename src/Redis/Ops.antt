-- ===== src/Redis/Ops.antt =====
-- The writes of the Redis backend, and how they are joined before they are tried again
-- (jobbackendprovider/redisprovider/writer.go).
use minijob.Prelude.{
  ℕ, String, Bool, true, false, not, ◌||◌, ◌==◌, ◌≡◌, ◌⊎◌, refl, sym, ap, ◌∙◌, Option, none, some,
  List, [], ◌∷◌, ◌++◌, if◌then◌else◌, keep_if, take, drop, take-drop, string_Eq, inl, inr,
  Bool-cases, arith,
}
use mathlib.Core.Path.{subst}

-- A key's value, and the seconds it is kept (0 for ever).
abbrev pub StoredValue : Type 0
StoredValue = String × ℕ

pub record WriteOp : Type 0 where
  pub key : String
  pub value : String
  pub ttl : ℕ
  pub del : Bool
  pub del_all : Bool

-- What a write makes of the value of a job's key.
abbrev pub written : String → WriteOp → Option StoredValue → Option StoredValue
written k op v =
    if op.del_all
    then none
    else if op.key == k
    then (if op.del then none else some (op.value, op.ttl))
    else v

-- What the writes make of it, the first of which comes first.
abbrev pub after : String → List WriteOp → Option StoredValue → Option StoredValue
after k [] v = v
after k (op ∷ ops) v = after k ops (written k op v)

-- `o.delAll || o.key != op.key`
abbrev pub stays_before : WriteOp → WriteOp → Bool
stays_before op o = o.del_all || not (o.key == op.key)

-- One turn of the loop of coalesce.
unfoldable pub join : WriteOp → List WriteOp → List WriteOp
join op out = (if op.del_all then [] else keep_if (stays_before op) out) ++ op ∷ []

unfoldable pub coalesce_from : List WriteOp → List WriteOp → List WriteOp
coalesce_from out [] = out
coalesce_from out (op ∷ ops) = coalesce_from (join op out) ops

-- coalesce
abbrev pub coalesce : List WriteOp → List WriteOp
coalesce ops = coalesce_from [] ops

pub after-append :
    (k : String) (xs ys : List WriteOp) (v : Option StoredValue)
    → after k (xs ++ ys) v ≡ after k ys (after k xs v)
after-append k [] ys v = refl
after-append k (x ∷ xs) ys v = after-append k xs ys (written k x v)

-- The writes that stay decide about another key as all of them did.
after-keep_if :
    (k : String) (op : WriteOp) (out : List WriteOp) (v : Option StoredValue)
    → op.del_all ≡ false
    → written k op (after k (keep_if (stays_before op) out) v) ≡ written k op (after k out v)
after-keep_if k op [] v h = refl
after-keep_if k op (o ∷ out) v h = ground (
  arith,
  h,
  string_Eq.equal_iff o.key op.key,
  string_Eq.equal_iff o.key k,
  string_Eq.equal_iff op.key k,
  after-keep_if k op out v h,
  after-keep_if k op out (written k o v) h,
)

after-join :
    (k : String) (op : WriteOp) (out : List WriteOp) (v : Option StoredValue)
    → after k (join op out) v ≡ written k op (after k out v)
unfolding join
after-join k op out v =
    ground
      (arith, after-append k (keep_if (stays_before op) out) (op ∷ []) v, after-keep_if k op out v)

after-coalesce_from :
    (k : String) (out ops : List WriteOp) (v : Option StoredValue)
    → after k (coalesce_from out ops) v ≡ after k ops (after k out v)
unfolding coalesce_from
after-coalesce_from k out [] v = refl
after-coalesce_from k out (op ∷ ops) v =
    after-coalesce_from k (join op out) ops v ∙ ap (after k ops) (after-join k op out v)

written-same :
    (k : String) (op : WriteOp)
    → (op.del_all || op.key == k) ≡ true
    → (v w : Option StoredValue) → written k op v ≡ written k op w
written-same k op h v w = ground arith

written-other :
    (k : String) (op : WriteOp)
    → (op.del_all || op.key == k) ≡ false
    → (v : Option StoredValue) → written k op v ≡ v
written-other k op h v = ground arith

-- Writes leave a key alone, or decide about it whatever it was.
after-cases :
    (k : String) (ops : List WriteOp)
    → ((v : Option StoredValue) → after k ops v ≡ v)
      ⊎ ((v w : Option StoredValue) → after k ops v ≡ after k ops w)
after-cases k [] = inl (λ v. refl)
after-cases k (op ∷ ops) = elim (after-cases k ops) [
  | inr same ↦ inr (λ v w. same (written k op v) (written k op w))
  | inl none_of ↦ elim (Bool-cases (op.del_all || op.key == k)) [
    | inl e ↦ inr (λ v w. ap (after k ops) (written-same k op e v w))
    | inr e ↦ inl (λ v. ap (after k ops) (written-other k op e v) ∙ none_of v)
  ]
]

-- Writes that are made again, from the first, undo nothing.
after-again :
    (k : String) (xs ys : List WriteOp) (v : Option StoredValue)
    → after k (xs ++ ys) (after k xs v) ≡ after k (xs ++ ys) v
after-again k xs ys v =
    after-append k xs ys (after k xs v)
    ∙ ap (after k ys) (elim (after-cases k xs) [
      | inl none_of ↦ none_of (after k xs v)
      | inr same ↦ same (after k xs v) v
    ])
    ∙ sym (after-append k xs ys v)

-- The writes that are joined lead to the same value as all of them in order, also where some of the
-- first ones have already reached the server.
pub coalesce_lem :
    (k : String) (xs ys : List WriteOp) (v : Option StoredValue)
    → after k (coalesce (xs ++ ys)) (after k xs v) ≡ after k (xs ++ ys) v
coalesce_lem k xs ys v = after-coalesce_from k [] (xs ++ ys) (after k xs v) ∙ after-again k xs ys v

-- The value is the one after some of the first writes.
abbrev pub Partly : String → List WriteOp → Option StoredValue → Option StoredValue → Type 0
Partly k ops v w = (n : ℕ) × (w ≡ after k (take n ops) v)

-- Where some of the first writes have already reached the server, the joined writes lead to the
-- value that all the writes make of the original one in order.
pub coalesce-Partly :
    (k : String) (ops : List WriteOp) (v w : Option StoredValue)
    → Partly k ops v w
    → after k (coalesce ops) w ≡ after k ops v
coalesce-Partly k ops v w (n, e) =
    ap (after k (coalesce ops)) e
    ∙ subst (λ zs. after k (coalesce zs) (after k (take n ops) v) ≡ after k zs v) (take-drop n ops)
        (coalesce_lem k (take n ops) (drop n ops) v)
