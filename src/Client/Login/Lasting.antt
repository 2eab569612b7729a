-- ===== src/Client/Login/Lasting.antt =====
-- How long a login lasts, on both sides.
use casuya_live.Common.{
  ℕ, ◌+◌, ◌*◌, ◌/◌, ◌<◌, ◌^◌, String, Bool, true, false, some, ◌≡◌, refl, sym, arith, ltb, is_empty,
  if◌then◌else◌,
}
use casuya_live.Js.{Float, Runtime, Value, null, num, str, member, member?, truthy}
use casuya_live.Relay.Token.{admin_token_ttl_seconds, issue_admin_token, verify_admin_token}
use casuya_live.Relay.Token.Authentic.{TokenLaws, verify-issue, not_empty_signed}
use casuya_live.Relay.Http.{issued_value}
use casuya_live.Client.Session.{Storage, session_body, save_session_token}
use casuya_live.Client.Session.Keeping.{SessionLaws, get_session_token-save_session_token}
use casuya_live.Client.Login.{Page, opens, submits, page_step, answered, login_done, page_token}

ltb_seconds : (t e : ℕ) → ltb t (e * 1000) ≡ ltb (t / 1000) e
ltb_seconds t e = ground arith

module _ (F : Float) (R : Runtime F) where
  open F use {N, of_ℕ}
  open R use {parse, stringify}

  login_done-storage :
      (thrown : String) (s : Storage) (secret : String) (issued_ms saved_ms : ℕ)
      → let issued = issue_admin_token F R secret issued_ms in
        (login_done F R thrown s saved_ms (answered true 200 (issued_value F R issued))).storage
        ≡ save_session_token F R s (str issued.token) (num (of_ℕ issued.expires_at)) saved_ms
  unfolding login_done member member?
  login_done-storage thrown s secret issued_ms saved_ms = refl

  shown_token :
      (b : Bool) (token : String) (s s' : Storage)
      → is_empty token ≡ false
      → let (t, _) : Value N × Storage = if b then (str token, s) else (null, s') in
        (if truthy F t then t else null) ≡ (if b then str token else null)
  unfolding truthy
  shown_token true token s s' h = rw h refl
  shown_token false token s s' h = refl

  page_token-login_done :
      TokenLaws F R
      → SessionLaws F R
      → (thrown : String) (s : Storage) (secret : String) (issued_ms saved_ms now_ms : ℕ)
      → s.defined ≡ true
      → is_empty secret ≡ false
      → let issued = issue_admin_token F R secret issued_ms in
        let body = session_body F R (str issued.token) (num (of_ℕ issued.expires_at)) saved_ms in
        parse (stringify body) ≡ some body
        → (issued_ms / 1000 + admin_token_ttl_seconds) * 1000 < 2 ^ 53
        → now_ms < 2 ^ 53
        → let reply =
            answered true 200 (issued_value F R (issue_admin_token F R secret issued_ms)) in
          (page_token F R (login_done F R thrown s saved_ms reply).storage now_ms).0 ≡ (
            if verify_admin_token F R secret (issue_admin_token F R secret issued_ms).token now_ms
            then str (issue_admin_token F R secret issued_ms).token
            else null)
  unfolding page_token issue_admin_token
  page_token-login_done laws session thrown s secret issued_ms saved_ms now_ms d h saved k l =
      let issued = issue_admin_token F R secret issued_ms in
      let kept =
        get_session_token-save_session_token F R session s issued.token issued.expires_at saved_ms
          now_ms d (not_empty_signed F R _ _) saved k l in
      let valid = verify-issue F R laws secret issued_ms now_ms h (omega arith) (omega arith) in
      rw
        (
          login_done-storage thrown s secret issued_ms saved_ms,
          page_token,
          kept,
          valid,
          sym (ltb_seconds now_ms issued.expires_at),
        )
        (shown_token _ issued.token _ _ (not_empty_signed F R _ _))

  -- The login puts the token into the state of the open page.
  page_step-submits :
      (thrown : String) (p : Page N) (secret : String) (issued_ms saved_ms : ℕ)
      → let issued = issue_admin_token F R secret issued_ms in
        let reply = answered true 200 (issued_value F R issued) in
        (page_step F R p (submits thrown saved_ms reply)).token ≡ str issued.token
  unfolding page_step login_done member member?
  page_step-submits thrown p secret issued_ms saved_ms = refl

  -- Where the browser has a storage, the secret is not empty, the session's JSON reads back and times
  -- are below 2^53: a login that the relay answers with a fresh token gives it to the open page; and a
  -- page that is opened after it, with no log-out and no other page opened between, starts with that
  -- token exactly if the relay accepts it at that moment, by one clock, and with null otherwise.
  pub page_step-login :
      TokenLaws F R
      → SessionLaws F R
      → (thrown : String) (p : Page N) (secret : String) (issued_ms saved_ms now_ms : ℕ)
      → p.storage.defined ≡ true
      → is_empty secret ≡ false
      → let issued = issue_admin_token F R secret issued_ms in
        let body = session_body F R (str issued.token) (num (of_ℕ issued.expires_at)) saved_ms in
        parse (stringify body) ≡ some body
        → (issued_ms / 1000 + admin_token_ttl_seconds) * 1000 < 2 ^ 53
        → now_ms < 2 ^ 53
        → let fresh = issue_admin_token F R secret issued_ms in
          let reply = answered true 200 (issued_value F R fresh) in
          let open_page = page_step F R p (submits thrown saved_ms reply) in
          (open_page.token ≡ str fresh.token)
          × ((page_step F R open_page (opens now_ms)).token ≡ (
              if verify_admin_token F R secret fresh.token now_ms then str fresh.token else null))
  unfolding page_step
  page_step-login laws session thrown p secret issued_ms saved_ms now_ms d h saved k l = (
    page_step-submits thrown p secret issued_ms saved_ms,
    page_token-login_done laws session thrown p.storage secret issued_ms saved_ms now_ms d h saved k
        l,
  )
