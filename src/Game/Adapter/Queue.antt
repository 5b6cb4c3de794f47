-- ===== src/Game/Adapter/Queue.antt =====
-- The `loop` of `process_queue` in src/game/client_adapter.rs: with fuel above the length of the
-- queue it ends by its own test.
use fourinarow_server.Base.{
  length, Bool-cases, ℕ, zero, suc, ◌+◌, ◌-◌, ◌≤◌, ◌<◌, ◌≡◌, inl, inr, arith,
}
use fourinarow_server.Game.Message.{PlayerMessage}
use fourinarow_server.Game.Adapter.{process_pass, process_queue}
use fourinarow_server.Game.Adapter.Pass.{
  PlayerQueue, forwarded, forwarded-append, stream, stream_join, Consistent, HasId, Lacks,
  pass_index, pass_length, pass_forward, pass-Consistent, pass_idle, pass_busy, pass_keeps,
  pass_found, pass_from,
}

pub queue_index : (n i : ℕ) (q : PlayerQueue) → i ≤ (process_queue n i q).index
unfolding process_queue
queue_index zero i q = omega arith
queue_index (suc n) i q =
    ground (arith, pass_index i q, queue_index n (process_pass i q).index (process_pass i q).kept)

-- With fuel above the length of the queue, the loop of `process_queue` ends by its own test: no
-- message with the next number is left in the queue.
pub queue_done :
    (n i : ℕ) (q : PlayerQueue)
    → length q < n
    → Lacks ((process_queue n i q).index + 1) (process_queue n i q).kept
unfolding process_queue
queue_done zero i q h = absurd (omega arith)
queue_done (suc n) i q h = elim (Bool-cases (process_pass i q).added) [
  | inl more ↦ rw more (
      queue_done n (process_pass i q).index (process_pass i q).kept
        (omega (arith, pass_busy i q more, pass_length i q)))
  | inr idle ↦ let (lacks, kept, index, _) = pass_idle i q idle in rw (idle, kept, index) lacks
]

pub queue-Consistent :
    (content : ℕ → PlayerMessage) (n i : ℕ) (q : PlayerQueue)
    → Consistent content q
    → Consistent content (process_queue n i q).kept
unfolding process_queue
queue-Consistent content zero i q h = h
queue-Consistent content (suc n) i q h = elim (Bool-cases (process_pass i q).added) [
  | inl more ↦ rw more (
      queue-Consistent content n (process_pass i q).index (process_pass i q).kept
        (pass-Consistent content i q h))
  | inr idle ↦ rw idle (pass-Consistent content i q h)
]

pub queue_forward :
    (content : ℕ → PlayerMessage) (n i : ℕ) (q : PlayerQueue)
    → Consistent content q
    → forwarded (process_queue n i q).out ≡ stream content i ((process_queue n i q).index - i)
unfolding process_queue
queue_forward content zero i q h = unfold forwarded stream in ground arith
queue_forward content (suc n) i q h = elim (Bool-cases (process_pass i q).added) [
  | inl more ↦
      let later =
        queue_forward content n (process_pass i q).index (process_pass i q).kept
          (pass-Consistent content i q h) in
      rw (more, forwarded-append (process_pass i q).out, pass_forward content i q h, later)
        (stream_join content i (process_pass i q).index _ (pass_index i q)
          (queue_index n (process_pass i q).index (process_pass i q).kept))
  | inr idle ↦ rw idle (pass_forward content i q h)
]

pub queue_keeps :
    (n i k : ℕ) (q : PlayerQueue)
    → HasId k q
    → (process_queue n i q).index < k
    → HasId k (process_queue n i q).kept
unfolding process_queue
queue_keeps zero i k q h l = h
queue_keeps (suc n) i k q h l = ground (
  arith,
  pass_keeps i k q h,
  queue_index n (process_pass i q).index (process_pass i q).kept,
  queue_keeps n (process_pass i q).index k (process_pass i q).kept,
)

pub queue_from : (n i k : ℕ) (q : PlayerQueue) → HasId k (process_queue n i q).kept → HasId k q
unfolding process_queue
queue_from zero i k q h = h
queue_from (suc n) i k q h =
    ground (arith, pass_from i k q, queue_from n (process_pass i q).index k (process_pass i q).kept)

pub queue_found :
    (n i k : ℕ) (q : PlayerQueue) → i < k → k ≤ (process_queue n i q).index → HasId k q
unfolding process_queue
queue_found zero i k q h l = absurd (omega arith)
queue_found (suc n) i k q h l = ground (
  arith,
  pass_found i k q,
  pass_from i k q,
  queue_found n (process_pass i q).index k (process_pass i q).kept,
)
