-- ===== src/Agent/Schedule/Partition.antt =====
-- The batches of a schedule: they are the calls in order, and only reading calls run together.
use mathlib.Core.List.{append_assoc, append-nil}
use mew_code.Prelude.{
  ℕ, suc, ◌≡◌, refl, sym, ◌∙◌, true, false, List, [], ◌∷◌, ◌++◌, Bool-cases, ◌⊎◌, inl, inr,
}
use mew_code.Prelude.Dict.Laws.{All, All-snoc}
use mew_code.Prelude.Sort.{count_up}
use mew_code.Tools.{ToolCallRequest, ToolRegistry}
use mew_code.Agent.Schedule.{Batch, is_read_only, flush, partition_from, partition}

-- The calls of the batches, one batch after the other.
abbrev pub flatten {ℓ} : {A : Type ℓ} → List (List A) → List A
flatten [] = []
flatten (xs ∷ xss) = xs ++ flatten xss

flatten-append {ℓ} :
    {A : Type ℓ} (xss yss : List (List A)) → flatten (xss ++ yss) ≡ flatten xss ++ flatten yss
flatten-append [] yss = refl
flatten-append (xs ∷ xss) yss =
    rw (flatten-append xss yss) (sym (append_assoc xs (flatten xss) (flatten yss)))

flatten-flush : (b : Batch) → flatten (flush b) ≡ b
unfolding flush
flatten-flush [] = refl
flatten-flush (x ∷ b) = append-nil (x ∷ b)

flatten-partition_from :
    (registry : ToolRegistry) (reads : Batch) (n : ℕ) (rs : List ToolCallRequest)
    → flatten (partition_from registry reads n rs) ≡ reads ++ count_up n rs
unfolding partition_from count_up
flatten-partition_from registry reads n [] = flatten-flush reads ∙ sym (append-nil reads)
flatten-partition_from registry reads n (r ∷ rs) = elim (Bool-cases (is_read_only registry r)) [
  | inl safe ↦ rw safe (
      flatten-partition_from registry (reads ++ (n, r) ∷ []) (suc n) rs
      ∙ append_assoc reads ((n, r) ∷ []) (count_up (suc n) rs))
  | inr other ↦ rw other (
      flatten-append (flush reads) (((n, r) ∷ []) ∷ partition_from registry [] (suc n) rs)
      ∙ rw (flatten-flush reads, flatten-partition_from registry [] (suc n) rs) refl)
]

-- A batch of reading calls, or one other call alone.
abbrev pub IsBatch : ToolRegistry → Batch → Type 0
IsBatch registry b =
    All (λ item. is_read_only registry item.1 ≡ true) b
    ⊎ ((item : ℕ × ToolCallRequest) × (b ≡ item ∷ []) × (is_read_only registry item.1 ≡ false))

flush-IsBatch :
    (registry : ToolRegistry) (b : Batch) (bs : List Batch)
    → All (λ item. is_read_only registry item.1 ≡ true) b
    → All (IsBatch registry) bs
    → All (IsBatch registry) (flush b ++ bs)
unfolding flush
flush-IsBatch registry [] bs h k = k
flush-IsBatch registry (x ∷ b) bs h k = (inl h, k)

partition_from-IsBatch :
    (registry : ToolRegistry) (reads : Batch) (n : ℕ) (rs : List ToolCallRequest)
    → All (λ item. is_read_only registry item.1 ≡ true) reads
    → All (IsBatch registry) (partition_from registry reads n rs)
unfolding partition_from
partition_from-IsBatch registry reads n [] h =
    rw (sym (append-nil (flush reads))) (flush-IsBatch registry reads [] h tt)
partition_from-IsBatch registry reads n (r ∷ rs) h = elim (Bool-cases (is_read_only registry r)) [
  | inl safe ↦ rw safe (
      partition_from-IsBatch registry (reads ++ (n, r) ∷ []) (suc n) rs
        (All-snoc (λ item. is_read_only registry item.1 ≡ true) reads (n, r) h safe))
  | inr other ↦ rw other (
      flush-IsBatch registry reads _ h
        (inr ((n, r), refl, other), partition_from-IsBatch registry [] (suc n) rs tt))
]

-- The batches are the calls in their order, numbered from 0, and a batch is of reading calls, or of
-- one call that is none: a call with side effects never runs beside another.
pub partition_lem :
    (registry : ToolRegistry) (rs : List ToolCallRequest)
    → (flatten (partition registry rs) ≡ count_up 0 rs)
      × All (IsBatch registry) (partition registry rs)
unfolding partition
partition_lem registry rs =
    (flatten-partition_from registry [] 0 rs, partition_from-IsBatch registry [] 0 rs tt)
