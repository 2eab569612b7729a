-- ===== src/Client/Session/Keeping.antt =====
-- How long the stored session is given out.
use casuya_live.Common.{
  ℕ, ◌*◌, ◌<◌, ◌^◌, String, true, false, not, none, some, ◌≡◌, ap, arith, ltb, ◌==◌, is_empty,
  is_empty_iff, if◌then◌else◌, Bool-cases, inl, inr,
}
use casuya_live.Js.{Float, Runtime, SafeIntegers, Value, null, num, str, member?, truthy, number_of}
use casuya_live.Client.Session.{
  Storage, is_over, read_session, session_body, get_session_token, save_session_token,
  clear_session_token,
}

module _ (F : Float) (R : Runtime F) where
  open F use {N, of_ℕ, eq, mul}
  open R use {parse, stringify}

  -- Whole numbers below 2^53 are compared and multiplied exactly, and the empty text is no JSON.
  pub record SessionLaws : Type 0 where
    pub safe : SafeIntegers F
    pub eq_of_ℕ : (m n : ℕ) → m < 2 ^ 53 → n < 2 ^ 53 → eq (of_ℕ m) (of_ℕ n) ≡ (m == n)
    pub mul_of_ℕ : (m n : ℕ) → m * n < 2 ^ 53 → mul (of_ℕ m) (of_ℕ n) ≡ of_ℕ (m * n)
    pub parse_empty : parse "" ≡ none

  is_over-ltb :
      SessionLaws
      → (expires now_ms : ℕ) → expires * 1000 < 2 ^ 53
      → now_ms < 2 ^ 53
      → is_over F R (num (of_ℕ expires)) now_ms ≡ not (ltb now_ms (expires * 1000))
  unfolding number_of
  is_over-ltb laws expires now_ms h k =
      rw
        (
          laws.mul_of_ℕ expires 1000 h,
          laws.safe.lt_of_ℕ (expires * 1000) now_ms h k,
          laws.eq_of_ℕ (expires * 1000) now_ms h k,
        )
        (ground arith)

  parsed_not_empty :
      SessionLaws → (raw : String) (v : Value N) → parse raw ≡ some v → is_empty raw ≡ false
  parsed_not_empty laws raw v e = elim (Bool-cases (is_empty raw)) [
    | inl h ↦
        let same = ap parse ((is_empty_iff raw).0 h) in let empty = laws.parse_empty in absurd (cc)
    | inr h ↦ h
  ]

  -- Where the browser has a storage, the token is not empty, the session's JSON reads back and
  -- times are below 2^53: a saved session gives its token back, and stays, exactly until the second
  -- of its expiry; from then on it gives null, and is removed from the storage.
  pub get_session_token-save_session_token :
      SessionLaws
      → (s : Storage) (token : String) (expires saved_ms now_ms : ℕ) → s.defined ≡ true
      → is_empty token ≡ false
      → parse (stringify (session_body F R (str token) (num (of_ℕ expires)) saved_ms))
        ≡ some (session_body F R (str token) (num (of_ℕ expires)) saved_ms)
      → expires * 1000 < 2 ^ 53
      → now_ms < 2 ^ 53
      → let saved = save_session_token F R s (str token) (num (of_ℕ expires)) saved_ms in
        get_session_token F R saved now_ms ≡ (
          if ltb now_ms (expires * 1000)
          then (str token, saved)
          else (null, clear_session_token F R saved))
  unfolding get_session_token save_session_token clear_session_token read_session member? truthy
  get_session_token-save_session_token laws s token expires saved_ms now_ms d t e h k =
      let body = session_body F R (str token) (num (of_ℕ expires)) saved_ms in
      rw (d, parsed_not_empty laws _ _ e, read_session, e, t, is_over-ltb laws expires now_ms h k)
        (ground arith)
