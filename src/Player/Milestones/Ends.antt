-- ===== src/Player/Milestones/Ends.antt =====
-- The loop over the steps of an achievement in src/player/repository.rs ends.
use fourinarow_server.Base.{
  ◌+ℤ◌, ◌*ℤ◌, ◌≤ℤ◌, ltb_ℤ, ℤ, int_laws, Bool-cases, ℕ, zero, suc, ◌-◌, ◌*◌, ◌^◌, ◌≤◌, ◌<◌, ◌≡◌, sym,
  inl, inr, true, false, Option, none, some, List, ◌++◌, arith, pos, negsuc,
}
use fourinarow_server.Player.{PlayerId}
use fourinarow_server.Player.Tables.{Progressive}
use fourinarow_server.Player.Transaction.{Session}
use fourinarow_server.Player.Transaction.Rules.{
  After, Ensures, Ensures-pure, Ensures-bind, Ensures-fact,
}
use fourinarow_server.Player.Milestones.{Milestone, wrap_i32, threshold, next_step, announce_steps}
use fourinarow_server.Player.Milestones.Keeps.{announce-Keeps}

grows : (a b l : ℕ) → l < a → 1 ≤ b → l < a * b
grows a zero l h one = elim one [ ]
grows a (suc b) l h one = grind arith

-- A multiple of a number above `level`, by one that is not less than 1, is above `level`.
product-above :
    (x gap level : ℤ)
    → pos 0 ≤ℤ level
    → ltb_ℤ level x ≡ true
    → pos 1 ≤ℤ gap
    → ltb_ℤ level (x *ℤ gap) ≡ true
unfolding ◌*ℤ◌
product-above (pos a) (pos b) (pos l) zero_level above one =
    let more : l < a * b = grows a b l (ground arith) (ground arith) in ground arith
product-above x (negsuc b) level zero_level above one = ground arith
product-above x gap (negsuc l) zero_level above one = ground arith
product-above (negsuc a) gap (pos l) zero_level above one = ground arith

-- The greatest `i32`.
abbrev pub max_i32 : ℤ
max_i32 = pos (2 ^ 31 - 1)

wrap_i32_fits : (x : ℤ) → pos 0 ≤ℤ x → x ≤ℤ max_i32 → wrap_i32 x ≡ x
unfolding wrap_i32
wrap_i32_fits (pos n) zero_x small = ground arith
wrap_i32_fits (negsuc n) zero_x small = ground arith

scaled : (a b g m : ℕ) → a ≤ b → 1 ≤ g → b * g ≤ m → (a ≤ m) × (a * g ≤ m)
scaled a b zero m less one fits = elim one [ ]
scaled a b (suc g) m less one fits = (grind arith, grind arith)

-- A number that is not above one whose product fits has a product that fits.
product-fits :
    (x top gap : ℤ)
    → pos 0 ≤ℤ x
    → x ≤ℤ top
    → pos 1 ≤ℤ gap
    → top *ℤ gap ≤ℤ max_i32
    → (x ≤ℤ max_i32) × (pos 0 ≤ℤ x *ℤ gap) × (x *ℤ gap ≤ℤ max_i32)
unfolding ◌*ℤ◌
product-fits (pos a) (pos b) (pos g) zero_x less one fits =
    let both : (a ≤ 2 ^ 31 - 1) × (a * g ≤ 2 ^ 31 - 1) =
      scaled a b g (2 ^ 31 - 1) (ground arith) (ground arith) (ground arith) in
    (ground (arith, both), ground arith, ground (arith, both))
product-fits (negsuc a) top gap zero_x less one fits = absurd (omega arith)
product-fits (pos a) (negsuc b) gap zero_x less one fits = absurd (omega arith)
product-fits (pos a) (pos b) (negsuc g) zero_x less one fits = absurd (omega arith)

-- The steps end above the level.
abbrev pub Above : Progressive → ℤ → Option (ℤ × List Milestone) → Type 0
Above p level none = false ≡ true
Above p level (some (last, messages)) = ltb_ℤ level (threshold p last) ≡ true

next_sum :
    (init step : ℤ) (n : ℕ) → (init +ℤ step) +ℤ pos (suc n) ≡ (init +ℤ (step +ℤ pos 1)) +ℤ pos n
next_sum init step n = grind int_laws

-- A step from which `n` more steps are in range.
record InRange (p : Progressive) (n : ℕ) (step : ℤ) : Type 0 where
  zero_init : pos 0 ≤ℤ p.init
  zero_step : pos 0 ≤ℤ step
  one_gap : pos 1 ≤ℤ p.gap
  fits : ((p.init +ℤ step) +ℤ pos n) *ℤ p.gap ≤ℤ max_i32

threshold-fits :
    (p : Progressive) (n : ℕ) (step : ℤ)
    → InRange p n step
    → threshold p step ≡ (p.init +ℤ step) *ℤ p.gap
unfolding threshold
threshold-fits p n step h =
    let sum : pos 0 ≤ℤ p.init +ℤ step = omega (int_laws, h.zero_init, h.zero_step) in
    let products =
      product-fits (p.init +ℤ step) ((p.init +ℤ step) +ℤ pos n) p.gap sum (omega int_laws) h.one_gap
        h.fits in
    rw (wrap_i32_fits (p.init +ℤ step) sum products.0)
      (wrap_i32_fits ((p.init +ℤ step) *ℤ p.gap) products.1 products.2)

next_step-fits :
    (p : Progressive) (n : ℕ) (step : ℤ) → InRange p (suc n) step → next_step step ≡ step +ℤ pos 1
unfolding next_step
next_step-fits p n step h =
    let next : pos 0 ≤ℤ step +ℤ pos 1 = omega (int_laws, h.zero_step) in
    let products =
      product-fits (step +ℤ pos 1) ((p.init +ℤ step) +ℤ pos (suc n)) p.gap next
        (omega (int_laws, h.zero_init)) h.one_gap h.fits in
    wrap_i32_fits (step +ℤ pos 1) next products.0

next-InRange :
    (p : Progressive) (n : ℕ) (step : ℤ) → InRange p (suc n) step → InRange p n (step +ℤ pos 1)
next-InRange p n step h = record {
  zero_init = h.zero_init;
  zero_step = omega (int_laws, h.zero_step);
  one_gap = h.one_gap;
  fits = rw (sym (next_sum p.init step n)) h.fits;
}

module _ (p : Progressive) (level : ℤ) where
  rest-Above :
      (messages : List Milestone) (result : Option (ℤ × List Milestone))
      → Above p level result
      → Above p level
          (elim result [ none ↦ none | some (last, more) ↦ some (last, messages ++ more) ])
  rest-Above messages none h = h
  rest-Above messages (some (last, more)) h = h

module _ {R : Type 0} (u : PlayerId) (p : Progressive) (level : ℤ) where
  one_more :
      (n : ℕ) (step : ℤ)
      → ltb_ℤ level (threshold p step) ≡ false
      → next_step step ≡ step +ℤ pos 1
      → Ensures {R = R}
          (λ _. Unit {0})
          (announce_steps n u p level (step +ℤ pos 1))
          (λ result _. Above p level result)
      → Ensures {R = R}
          (λ _. Unit {0})
          (announce_steps (suc n) u p level step)
          (λ result _. Above p level result)
  unfolding announce_steps
  one_more n step more next h =
      rw (announce_steps, more, next)
        (Ensures-bind
          (announce-Keeps {P = λ _. Unit {0}} (λ rows t _. tt) (λ rows t _. tt) u p step p.rewards)
          (λ messages. Ensures-bind h (λ result.
            Ensures-fact (λ t above. above)
              (λ above. Ensures-pure _ (λ t _. rest-Above p level messages result above)))))

  announce_steps-Above :
      (n : ℕ) (step : ℤ)
      → InRange p n step
      → pos 0 ≤ℤ level
      → ltb_ℤ level ((p.init +ℤ step) +ℤ pos n) ≡ true
      → Ensures {R = R}
          (λ _. Unit {0})
          (announce_steps (suc n) u p level step)
          (λ result _. Above p level result)
  unfolding announce_steps
  announce_steps-Above zero step range zero_level h =
      let near : ltb_ℤ level (p.init +ℤ step) ≡ true = grind int_laws in
      let last : ltb_ℤ level (threshold p step) ≡ true =
        rw (threshold-fits p 0 step range)
          (product-above (p.init +ℤ step) p.gap level zero_level near range.one_gap) in
      rw (announce_steps, last) (Ensures-pure _ (λ t _. last))
  announce_steps-Above (suc n) step range zero_level h =
      elim (Bool-cases (ltb_ℤ level (threshold p step))) [
        | inl last ↦ rw (announce_steps, last) (Ensures-pure _ (λ t _. last))
        | inr more ↦ one_more (suc n) step more (next_step-fits p n step range) (
            announce_steps-Above n (step +ℤ pos 1) (next-InRange p n step range) zero_level
              (rw (sym (next_sum p.init step n)) h))
      ]

-- Let the level, the first step `init` of an achievement and the step reached not be negative, its gap be
-- 1 at least, and n be so large that `init + step + n` is above the level and so small that
-- `(init + step + n) * gap` is an `i32`. Then on fuel n + 1 the loop over the steps, in arithmetic that
-- wraps around, comes back at a step whose threshold is above the level, or the database fails.
pub announce_steps-ends :
    (R : Type 0) (n : ℕ) (u : PlayerId) (p : Progressive) (level step : ℤ) (s : Session)
    → pos 0 ≤ℤ level
    → pos 0 ≤ℤ p.init
    → pos 0 ≤ℤ step
    → pos 1 ≤ℤ p.gap
    → ltb_ℤ level ((p.init +ℤ step) +ℤ pos n) ≡ true
    → ((p.init +ℤ step) +ℤ pos n) *ℤ p.gap ≤ℤ max_i32
    → After {R = R} (λ result _. Above p level result) (announce_steps (suc n) u p level step s)
announce_steps-ends R n u p level step s zero_level zero_init zero_step one_gap above fits =
    (announce_steps-Above u p level n step
        (record { zero_init = zero_init; zero_step = zero_step; one_gap = one_gap; fits = fits })
        zero_level above).at
      s tt
