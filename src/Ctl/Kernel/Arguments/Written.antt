-- ===== src/Ctl/Kernel/Arguments/Written.antt =====
-- Arguments that are written from a configuration are read back.
use alpenglow.Prelude.{
  ℕ, zero, suc, ◌+◌, ◌-◌, ◌*◌, ◌^◌, ◌/◌, ◌%◌, ◌<◌, ◌==◌, ltb, Text, Bool, true, false, ◌&&◌, ◌≡◌,
  refl, sym, ap, ◌∙◌, Option, none, some, List, [], ◌∷◌, ◌++◌, if◌then◌else◌, units, arith,
  digits_of, decimal, Bool-cases, inl, inr,
}
use alpenglow.Ctl.Kernel.{Config, attach, ends_in}
use alpenglow.Ctl.Kernel.Arguments.{
  is_decimal_digit, u32_from, number_or_zero, parse_pid, parse_rest, parse_args,
}

-- What a chain of tests that gives a number gives for another one.
chosen :
    (b c : Bool) (x y z : Option ℕ) (m : ℕ)
    → (if b then x else if c then x else none) ≡ some m
    → (x ≡ some m → y ≡ z)
    → (if b then y else if c then y else none) ≡ z
chosen true c x y z m h f = f h
chosen false true x y z m h f = f h
chosen false false x y z m h f = cc

u32_from-append :
    (n m : ℕ) (s t : Text) → u32_from n s ≡ some m → u32_from n (s ++ t) ≡ u32_from m t
unfolding u32_from
u32_from-append n m [] t h = ap (λ o. u32_from (number_or_zero o) t) h
u32_from-append n m (c ∷ s) t h =
    let m' = if c == 95 then n else n * 10 + (c - 48) in
    chosen (c == 95) (is_decimal_digit c && ltb m' (2 ^ 32)) (u32_from m' s) (u32_from m' (s ++ t))
      (u32_from m t) m h (u32_from-append m' m s t)

u32_from-digit :
    (m d : ℕ) → d < 10 → m * 10 + d < 2 ^ 32 → u32_from m ((d + 48) ∷ []) ≡ some (m * 10 + d)
unfolding u32_from
u32_from-digit m d h small = ground arith

u32_from-digits : (fuel n : ℕ) → n < 10 ^ fuel → n < 2 ^ 32 → u32_from 0 (digits_of fuel n) ≡ some n
unfolding digits_of u32_from
u32_from-digits zero n h small = cc (ap some {x = 0} {y = n} (omega (arith, h)))
u32_from-digits (suc fuel) n h small =
    let ih = u32_from-digits fuel (n / 10) (omega (arith, h)) (omega (arith, small)) in
    let divided : n / 10 * 10 + n % 10 ≡ n = omega arith in
    let high =
      u32_from-append 0 (n / 10) (digits_of fuel (n / 10)) ((n % 10 + 48) ∷ []) ih
      ∙ u32_from-digit (n / 10) (n % 10) (omega arith) (omega (arith, small))
      ∙ ap some divided in
    elim (Bool-cases (ltb n 10)) [
      | inl below ↦ rw below (
          u32_from-digit 0 n (ground arith) (omega (arith, small))
          ∙ ap some {x = 0 * 10 + n} {y = n} (omega arith))
      | inr above ↦ rw above high
    ]

ends_in-append : (b d : ℕ) (s : Text) → ends_in b (s ++ d ∷ []) ≡ (d == b)
ends_in-append b d [] = refl
ends_in-append b d (c ∷ []) = refl
ends_in-append b d (c ∷ e ∷ s) = ends_in-append b d (e ∷ s)

digit-no_underscore : (d : ℕ) → d < 10 → (d + 48 == 95) ≡ false
digit-no_underscore d h = ground arith

digits_of-ends : (fuel n : ℕ) → ends_in 95 (digits_of fuel n) ≡ false
unfolding digits_of
digits_of-ends zero n = refl
digits_of-ends (suc fuel) n = elim (Bool-cases (ltb n 10)) [
  | inl below ↦ rw below (digit-no_underscore n (ground arith))
  | inr above ↦ rw above (
      ends_in-append 95 (n % 10 + 48) (digits_of fuel (n / 10))
      ∙ digit-no_underscore (n % 10) (omega arith))
]

digits_of-starts :
    (fuel n : ℕ)
    → (c : ℕ) × (t : Text) × (digits_of (suc fuel) n ≡ c ∷ t) × (is_decimal_digit c ≡ true)
unfolding digits_of
digits_of-starts zero n = elim (Bool-cases (ltb n 10)) [
  | inl below ↦ (n + 48, [], rw below refl, ground arith)
  | inr above ↦ (n % 10 + 48, [], rw above refl, ground arith)
]
digits_of-starts (suc fuel) n = elim (Bool-cases (ltb n 10)) [
  | inl below ↦ (n + 48, [], rw below refl, ground arith)
  | inr above ↦
      let (c, t, starts, digit) = digits_of-starts fuel (n / 10) in
      (c, t ++ (n % 10 + 48) ∷ [], rw above (ap (λ high. high ++ (n % 10 + 48) ∷ []) starts), digit)
]

parse_pid-of_digits :
    (c : ℕ) (t : Text)
    → is_decimal_digit c ≡ true
    → ends_in 95 (c ∷ t) ≡ false
    → parse_pid (c ∷ t) ≡ number_or_zero (u32_from 0 (c ∷ t))
unfolding parse_pid
parse_pid-of_digits c t digit ends =
    let no_plus : (c == 43) ≡ false = ground arith in
    let no_minus : (c == 45) ≡ false = ground arith in
    let no_underscore : (c == 95) ≡ false = ground arith in
    rw (no_plus, no_minus, no_underscore, ends) refl

parse_pid-decimal : (n : ℕ) → n < 2 ^ 32 → parse_pid (decimal n) ≡ n
unfolding decimal
parse_pid-decimal n h =
    let (c, t, starts, digit) = digits_of-starts 19 n in
    let ends = sym (ap (ends_in 95) starts) ∙ digits_of-ends 20 n in
    let number = sym (ap (u32_from 0) starts) ∙ u32_from-digits 20 n (omega (arith, h)) h in
    ap parse_pid starts ∙ parse_pid-of_digits c t digit ends ∙ ap number_or_zero number

abbrev dry_argument : Bool → List Text
dry_argument true = units "--dry-run" ∷ []
dry_argument false = []

-- The arguments that say to attach a process to a group.
abbrev pub attach_arguments : Config → List Text
attach_arguments cfg =
    units "--policy"
    ∷ cfg.policy
    ∷ units "--runtime-state"
    ∷ cfg.runtime_state
    ∷ units "attach"
    ∷ units "--group"
    ∷ cfg.group
    ∷ units "--pid"
    ∷ decimal cfg.pid
    ∷ dry_argument cfg.dry

parse_rest-dry :
    (policy runtime_state group : Text) (pid : ℕ) (dry : Bool)
    → parse_rest
        (record {
          policy = policy;
          runtime_state = runtime_state;
          dry = false;
          cmd = attach;
          group = group;
          pid = pid;
        })
        (true, none)
        (dry_argument dry)
      ≡ some (record {
        policy = policy;
        runtime_state = runtime_state;
        dry = dry;
        cmd = attach;
        group = group;
        pid = pid;
      })
unfolding parse_rest
parse_rest-dry policy runtime_state group pid true = refl
parse_rest-dry policy runtime_state group pid false = refl

-- The arguments that are written for a configuration that attaches a process give that configuration,
-- when the number of the process is one of 32 bits, whatever the paths and the group are.
pub parse_args-attach_arguments :
    (program : Text) (cfg : Config)
    → cfg.cmd ≡ attach
    → cfg.pid < 2 ^ 32
    → parse_args (program ∷ attach_arguments cfg) ≡ some cfg
unfolding parse_args
parse_args-attach_arguments program cfg h small =
    parse_rest-dry cfg.policy cfg.runtime_state cfg.group (parse_pid (decimal cfg.pid)) cfg.dry
    ∙ ap (λ pid. some (record cfg { cmd = attach; pid = pid })) (parse_pid-decimal cfg.pid small)
    ∙ ap (λ cmd. some (record cfg { cmd = cmd })) (sym h)
