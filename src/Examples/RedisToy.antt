-- ===== src/Examples/RedisToy.antt =====
-- A platform whose numbers are their texts, and a Redis whose hashes hold whole numbers.
use casuya_live.Common.{
  ℕ, ◌+◌, String, true, false, ◌&&◌, Option, none, some, [], ◌∷◌, ◌≡◌, refl, arith, ◌===◌, decimal,
  decimal_injective, ===-false_of_ne, eq_refl, if◌then◌else◌,
}
use casuya_live.Js.{Float, Runtime, Value, num, str, object, array}
use casuya_live.Relay.Bus.{Command, h_incr_by_float, h_incr_by, h_set}
use casuya_live.Relay.History.{Redis, RedisLaws, ReadLaws}

abbrev pub texts : Float
texts = record {
  N = String;
  of_ℕ = decimal;
  hundredths = decimal;
  thousandths = decimal;
  nan = "NaN";
  add = λ x y. x;
  sub = λ x y. x;
  mul = λ x y. x;
  div = λ x y. x;
  floor_div = λ x y. x;
  round = λ x. x;
  abs = λ x. x;
  max_of = λ x y. y;
  lt = λ x y. false;
  eq = λ x y. x === y;
  is_finite = λ x. true;
  is_integer = λ x. true;
  of_text = λ s. s;
  show = λ x. x;
  to_fixed = λ k x. x;
}

pub texts-ReadLaws : ReadLaws texts
texts-ReadLaws = record {
  reads = λ n h. refl;
  eq_self = λ n h. eq_refl (decimal n);
  eq_zero = λ n p h.
      ===-false_of_ne (decimal n) (decimal 0)
        (λ e. absurd (omega (arith, decimal_injective n 0 e)));
}

abbrev pub order : String → Value String
order result = object (("pnl", num "5") ∷ ("result", str result) ∷ [])

abbrev pub settled_payload : Value String
settled_payload = object (("settled", array (order "won" ∷ order "lost" ∷ order "won" ∷ [])) ∷ [])

abbrev pub host : Runtime texts
host = record {
  parse = λ s. if s === "settled" then some settled_payload else none;
  stringify = λ v. "json";
  hmac = λ key s. s;
  encode = λ s. s;
  decode = λ s. s;
  query = λ url name. some none;
  parse_date = λ s. s;
  iso_date = λ n. n;
}

abbrev Hashes : Type 0
Hashes = String → String → Option ℕ

abbrev text_of : Option ℕ → Option String
text_of none = none
text_of (some n) = some (decimal n)

abbrev plus : ℕ → Option ℕ → Option ℕ
plus n none = some n
plus n (some m) = some (m + n)

abbrev written : String → String → (Option ℕ → Option ℕ) → Hashes → Hashes
written h k f s j i = if h === j && k === i then f (s j i) else s j i

abbrev run_command : Command String → Hashes → Hashes
run_command (h_incr_by h k n) s = written h k (plus n) s
run_command (h_set h k n) s = written h k (λ o. some n) s
run_command (h_incr_by_float h k x) s = written h k (λ o. some 0) s

abbrev pub redis : Redis String
redis = record { Store = Hashes; h_get = λ s h k. text_of (s h k); run = run_command }

abbrev pub empty_redis : Hashes
empty_redis h k = none

incr_none : (o : Option ℕ) (n : ℕ) → text_of o ≡ none → text_of (plus n o) ≡ some (decimal n)
incr_none none n h = refl
incr_none (some m) n h = absurd (cc)

incr_some :
    (o : Option ℕ) (m n : ℕ)
    → text_of o ≡ some (decimal m)
    → text_of (plus n o) ≡ some (decimal (m + n))
incr_some none m n h = absurd (cc)
incr_some (some i) m n h =
    let same : decimal i ≡ decimal m = cc in let e : i ≡ m = decimal_injective i m same in rw e refl

pub redis-RedisLaws : RedisLaws redis
redis-RedisLaws = record {
  get-h_set = λ s h k j f n. ground arith;
  get-h_incr_by_none = λ s h k n e. rw (eq_refl h, eq_refl k) (incr_none (s h k) n e);
  get-h_incr_by_some = λ s h k m n e b. rw (eq_refl h, eq_refl k) (incr_some (s h k) m n e);
  get-h_incr_by_other = λ s h k j f n e. rw e refl;
  get-h_incr_by_float_other = λ s h k j f x e. rw e refl;
}
