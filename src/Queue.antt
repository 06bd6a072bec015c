-- ===== src/Queue.antt =====
-- ThreadSafeQueue (model/thread_safe_queue.h). Each operation holds the queue's mutex from its
-- first to its last line, so threads interleave whole operations.
pub mod Order
use sm4ns.Base.{ℕ, List, [], ◌∷◌, ◌++◌, length, Option, none, some}

pub record ThreadSafeQueue {ℓ} (A : Type ℓ) : Type ℓ where
  pub message_list : List A

module _ {ℓ} {A : Type ℓ} where
  abbrev pub empty : ThreadSafeQueue A
  empty = record { message_list = [] }

  unfoldable pub push : A → ThreadSafeQueue A → ThreadSafeQueue A
  push item q = record { message_list = q.message_list ++ item ∷ [] }

  -- The item and the rest, or `none` for the result false.
  unfoldable pub pop : ThreadSafeQueue A → Option (A × ThreadSafeQueue A)
  pop q = elim q.message_list [ [] ↦ none | x ∷ xs ↦ some (x, record { message_list = xs }) ]

  pub size : ThreadSafeQueue A → ℕ
  size q = length q.message_list

  pub clear : ThreadSafeQueue A → ThreadSafeQueue A
  clear q = empty
