-- ===== src/Writes/Staged.antt =====
-- What the commits of a batch will write, and that it is what the batch has staged
-- (src/core/store-write-shared.ts, src/core/store-transaction.ts).
use stroid.Base.{
  ℕ, suc, ◌<◌, String, Option, none, some, List, [], ◌∷◌, ◌++◌, ◌≡◌, refl, ap, ◌∙◌, if◌then◌else◌,
  is_some, length, length-append, All, arith, zero,
}
use stroid.Base.Dict.{Dict, lookup, insert, lookup-insert}
use stroid.Transaction.{set_all}
use stroid.Writes.{Closure, updates, materializes, nth}

abbrev pub closure_write : Closure → String × ℕ
closure_write (updates args invalidation) = (args.name, args.next)
closure_write (materializes name value) = (name, value)

-- The writes of the commits with the numbers `fns`, in their order.
abbrev pub pending_writes : List Closure → List ℕ → Dict ℕ
pending_writes cs [] = []
pending_writes cs (fn ∷ fns) =
    let rest = pending_writes cs fns in
    elim (nth fn cs) [ none ↦ rest | some c ↦ closure_write c ∷ rest ]

-- What a batch with these staged values reads.
abbrev pub read_staged : Dict ℕ → Dict ℕ → String → Option ℕ
read_staged staged stores n = if is_some (lookup n staged) then lookup n staged else lookup n stores

-- The pending commits are in the list of closures, and running them gives what the batch reads.
pub record IsBacked (cs : List Closure) (pending : List ℕ) (staged stores : Dict ℕ) : Type 0 where
  pub held : All (λ fn. fn < length cs) pending
  pub agrees :
      (n : String)
      → lookup n (set_all (pending_writes cs pending) stores) ≡ read_staged staged stores n

nth-append :
    (fn : ℕ) (cs : List Closure) (c : Closure) → fn < length cs → nth fn (cs ++ c ∷ []) ≡ nth fn cs
nth-append fn [] c h = ground (arith, h)
nth-append zero (x ∷ cs) c h = refl
nth-append (suc fn) (x ∷ cs) c h = nth-append fn cs c (omega (arith, h))

nth-last : (cs : List Closure) (c : Closure) → nth (length cs) (cs ++ c ∷ []) ≡ some c
nth-last [] c = refl
nth-last (x ∷ cs) c = nth-last cs c

pending_writes-append :
    (cs : List Closure) (c : Closure) (fns : List ℕ)
    → All (λ fn. fn < length cs) fns
    → pending_writes (cs ++ c ∷ []) (fns ++ length cs ∷ [])
      ≡ pending_writes cs fns ++ closure_write c ∷ []
pending_writes-append cs c [] h = ground (arith, nth-last cs c)
pending_writes-append cs c (fn ∷ fns) (lt, h) =
    ground (arith, nth-append fn cs c lt, pending_writes-append cs c fns h)

held-append :
    (cs : List Closure) (c : Closure) (fns : List ℕ)
    → All (λ fn. fn < length cs) fns
    → All (λ fn. fn < length (cs ++ c ∷ [])) (fns ++ length cs ∷ [])
held-append cs c [] h = (omega (arith, length-append cs (c ∷ [])), tt)
held-append cs c (fn ∷ fns) (lt, h) =
    (omega (arith, lt, length-append cs (c ∷ [])), held-append cs c fns h)

set_all-append :
    (xs : Dict ℕ) (k : String) (v : ℕ) (m : Dict ℕ)
    → set_all (xs ++ (k, v) ∷ []) m ≡ insert k v (set_all xs m)
unfolding set_all
set_all-append [] k v m = refl
set_all-append ((j, w) ∷ xs) k v m = set_all-append xs k v (insert j w m)

-- Staging a value together with a commit that writes it.
pub stage-IsBacked :
    (cs : List Closure) (c : Closure) (pending : List ℕ) (staged stores : Dict ℕ)
    → IsBacked cs pending staged stores
    → IsBacked
        (cs ++ c ∷ [])
        (pending ++ length cs ∷ [])
        (insert (closure_write c).0 (closure_write c).1 staged)
        stores
stage-IsBacked cs c pending staged stores b = record {
  held = held-append cs c pending b.held;
  agrees = λ n.
      let k = (closure_write c).0 in
      let v = (closure_write c).1 in
      ap (λ ws. lookup n (set_all ws stores)) (pending_writes-append cs c pending b.held)
      ∙ ap (lookup n) (set_all-append (pending_writes cs pending) k v stores)
      ∙ lookup-insert n k v (set_all (pending_writes cs pending) stores)
      ∙ ground (arith, b.agrees n, lookup-insert n k v staged);
}
