-- ===== src/Game/Adapter/Pass.antt =====
-- One round over the players' queue, the `for` loop of `process_queue` in
-- src/game/client_adapter.rs.
use native.Mathlib.Nat.{suc-add, add-suc}
use fourinarow_server.Base.{
  length, All, Any, ◌==◌, Bool-cases, ℕ, zero, suc, ◌+◌, ◌-◌, ◌≤◌, ◌<◌, ◌≡◌, refl, ap, ◌≢◌, inl,
  inr, true, false, List, [], ◌∷◌, ◌++◌, arith,
}
use fourinarow_server.Game.Message.{PlayerMessage}
use fourinarow_server.Game.Adapter.{
  QueuedMessage, Effect, notify, notify_message, forward, send, send_plain, state_backlink,
  state_close, close_connection, stop, process_pass,
}

abbrev pub PlayerQueue : Type 0
PlayerQueue = List (QueuedMessage PlayerMessage)

-- The messages that an effect hands to the client's state, in order.
unfoldable pub forwarded : List Effect → List PlayerMessage
forwarded [] = []
forwarded (forward m ∷ out) = m ∷ forwarded out
forwarded (_ ∷ out) = forwarded out

pub forwarded-append : (xs ys : List Effect) → forwarded (xs ++ ys) ≡ forwarded xs ++ forwarded ys
unfolding forwarded
forwarded-append [] ys = refl
forwarded-append (forward m ∷ xs) ys = ap (◌∷◌ m) (forwarded-append xs ys)
forwarded-append (notify p ∷ xs) ys = forwarded-append xs ys
forwarded-append (notify_message m ∷ xs) ys = forwarded-append xs ys
forwarded-append (send c p ∷ xs) ys = forwarded-append xs ys
forwarded-append (send_plain c m ∷ xs) ys = forwarded-append xs ys
forwarded-append (state_backlink ∷ xs) ys = forwarded-append xs ys
forwarded-append (state_close ∷ xs) ys = forwarded-append xs ys
forwarded-append (close_connection c ∷ xs) ys = forwarded-append xs ys
forwarded-append (stop ∷ xs) ys = forwarded-append xs ys

-- The messages of the client's stream after number `i`, `n` of them.
unfoldable pub stream : (ℕ → PlayerMessage) → ℕ → ℕ → List PlayerMessage
stream content i zero = []
stream content i (suc n) = content (suc i) ∷ stream content (suc i) n

pub stream-append :
    (content : ℕ → PlayerMessage) (i a b : ℕ)
    → stream content i (a + b) ≡ stream content i a ++ stream content (i + a) b
unfolding stream
stream-append content i zero b = ground arith
stream-append content i (suc a) b =
    rw (suc-add a b, add-suc i a, ← suc-add i a)
      (ap (◌∷◌ (content (suc i))) (stream-append content (suc i) a b))

pub stream_join :
    (content : ℕ → PlayerMessage) (i j k : ℕ)
    → i ≤ j
    → j ≤ k
    → stream content i (j - i) ++ stream content j (k - j) ≡ stream content i (k - i)
stream_join content i j k h l =
    let whole : k - i ≡ (j - i) + (k - j) = omega arith in
    let middle : i + (j - i) ≡ j = omega arith in
    rw (whole, stream-append content i (j - i) (k - j), middle)

-- The stream up to number `n` begins with message `i + 1`.
pub stream_step :
    (content : ℕ → PlayerMessage) (i n : ℕ)
    → i < n
    → stream content i (n - i) ≡ content (i + 1) ∷ stream content (i + 1) (n - (i + 1))
unfolding stream
stream_step content i n h =
    let e : n - i ≡ suc (n - (i + 1)) = omega arith in
    let f : i + 1 ≡ suc i = omega arith in rw (e, f)

-- A queued message carries what the client sends under its number.
abbrev pub Consistent : (ℕ → PlayerMessage) → PlayerQueue → Type 0
Consistent content q = All (λ m. m.msg ≡ content m.id) q

abbrev pub HasId : ℕ → PlayerQueue → Type 0
HasId k q = Any (λ m. m.id ≡ k) q

abbrev pub Lacks : ℕ → PlayerQueue → Type 0
Lacks k q = All (λ m. m.id ≢ k) q

pub pass_index : (i : ℕ) (q : PlayerQueue) → i ≤ (process_pass i q).index
unfolding process_pass
pass_index i [] = omega arith
pass_index i (m ∷ ms) = ground (arith, pass_index i ms, pass_index (i + 1) ms)

pub pass_length :
    (i : ℕ) (q : PlayerQueue)
    → length (process_pass i q).kept + (process_pass i q).index ≡ length q + i
unfolding process_pass
pass_length i [] = omega arith
pass_length i (m ∷ ms) = ground (arith, pass_length i ms, pass_length (i + 1) ms)

pub pass_forward :
    (content : ℕ → PlayerMessage) (i : ℕ) (q : PlayerQueue)
    → Consistent content q
    → forwarded (process_pass i q).out ≡ stream content i ((process_pass i q).index - i)
unfolding process_pass forwarded
pass_forward content i [] h = unfold stream in ground arith
pass_forward content i (m ∷ ms) h = elim (Bool-cases (m.id == i + 1)) [
  | inr miss ↦ rw (miss, process_pass) (pass_forward content i ms h.1)
  | inl hit ↦
      rw (hit, process_pass)
        (ground (
          arith,
          pass_forward content (i + 1) ms h.1,
          stream_step content i (process_pass (i + 1) ms).index,
          pass_index (i + 1) ms,
        ))
]

pub pass-Consistent :
    (content : ℕ → PlayerMessage) (i : ℕ) (q : PlayerQueue)
    → Consistent content q
    → Consistent content (process_pass i q).kept
unfolding process_pass
pass-Consistent content i [] h = tt
pass-Consistent content i (m ∷ ms) h =
    ground (arith, pass-Consistent content i ms h.1, pass-Consistent content (i + 1) ms h.1)

pub pass_idle :
    (i : ℕ) (q : PlayerQueue)
    → (process_pass i q).added ≡ false
    → Lacks (i + 1) q
      × ((process_pass i q).kept ≡ q)
      × ((process_pass i q).index ≡ i)
      × ((process_pass i q).out ≡ [])
unfolding process_pass
pass_idle i [] h = (tt, refl, refl, refl)
pass_idle i (m ∷ ms) h = ground (arith, pass_idle i ms)

pub pass_busy :
    (i : ℕ) (q : PlayerQueue) → (process_pass i q).added ≡ true → i < (process_pass i q).index
unfolding process_pass
pass_busy i [] h = absurd (ground arith)
pass_busy i (m ∷ ms) h = ground (arith, pass_busy i ms, pass_index (i + 1) ms)

pub pass_keeps :
    (i k : ℕ) (q : PlayerQueue)
    → HasId k q
    → (process_pass i q).index < k
    → HasId k (process_pass i q).kept
unfolding process_pass
pass_keeps i k [] h l = elim h [ ]
pass_keeps i k (m ∷ ms) h l =
    ground (arith, pass_keeps i k ms, pass_keeps (i + 1) k ms, pass_index (i + 1) ms)

pub pass_found : (i k : ℕ) (q : PlayerQueue) → i < k → k ≤ (process_pass i q).index → HasId k q
unfolding process_pass
pass_found i k [] h l = absurd (omega arith)
pass_found i k (m ∷ ms) h l = ground (arith, pass_found i k ms, pass_found (i + 1) k ms)

pub pass_from : (i k : ℕ) (q : PlayerQueue) → HasId k (process_pass i q).kept → HasId k q
unfolding process_pass
pass_from i k [] h = elim h [ ]
pass_from i k (m ∷ ms) h = ground (arith, pass_from i k ms, pass_from (i + 1) k ms)
