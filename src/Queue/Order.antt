-- ===== src/Queue/Order.antt =====
-- The order in which items leave a ThreadSafeQueue (model/thread_safe_queue.h), for any
-- interleaving of the threads that use it.
use sm4ns.Base.{
  ◌≡◌, sym, ap, ◌∙◌, List, [], ◌∷◌, ◌++◌, append_assoc, append-nil, Option, none, some, arith,
}
use sm4ns.Queue.{ThreadSafeQueue, push, pop}

-- One operation by one of the threads.
pub data Operation {ℓ} (A : Type ℓ) : Type ℓ where
  pushes : A → Operation A
  pops : Operation A

module _ {ℓ} {A : Type ℓ} where
  -- The queue after an operation, and what the operation took out.
  after : Option (A × ThreadSafeQueue A) → ThreadSafeQueue A → ThreadSafeQueue A × List A
  after none q = (q, [])
  after (some (x, q')) q = (q', x ∷ [])

  step : Operation A → ThreadSafeQueue A → ThreadSafeQueue A × List A
  unfolding after
  step (pushes x) q = (push x q, [])
  step pops q = after (pop q) q

  -- A sequence of operations: the queue at the end, and all that was taken out, in order.
  pub run : List (Operation A) → ThreadSafeQueue A → ThreadSafeQueue A × List A
  run [] q = (q, [])
  run (op ∷ ops) q = let (q', out) = step op q in let (q'', rest) = run ops q' in (q'', out ++ rest)

  -- What the operations put in, in order.
  abbrev pub pushed : List (Operation A) → List A
  pushed [] = []
  pushed (pushes x ∷ ops) = x ∷ pushed ops
  pushed (pops ∷ ops) = pushed ops

  step-order :
      (op : Operation A) (ops : List (Operation A)) (q : ThreadSafeQueue A)
      → (step op q).1 ++ ((step op q).0.message_list ++ pushed ops)
        ≡ q.message_list ++ pushed (op ∷ ops)
  step-order (pushes x) ops q =
      unfold step push in append_assoc q.message_list (x ∷ []) (pushed ops)
  step-order pops ops q = unfold step pop in ground arith

  -- Whatever the interleaving, items leave in the order in which they came, none is lost and none
  -- is delivered twice: what left, and then what is still there, is what was there at first and
  -- then what was put in.
  pub run-order :
      (ops : List (Operation A)) (q : ThreadSafeQueue A)
      → (run ops q).1 ++ (run ops q).0.message_list ≡ q.message_list ++ pushed ops
  unfolding run
  run-order [] q = sym (append-nil q.message_list)
  run-order (op ∷ ops) q =
      append_assoc (step op q).1 _ _
      ∙ ap (◌++◌ (step op q).1) (run-order ops (step op q).0)
      ∙ step-order op ops q
