-- ===== src/Objects/Email.antt =====
-- `ResendClient` of internal/infra/email/sender.go.
use go_auth_refresh_template.Base.{String, none, some, [], ◌∷◌}
use go_auth_refresh_template.Domain.{ResendOptions}
use go_auth_refresh_template.World.{
  Env, Action, ◌>>=◌, from_outcome, SendEmailRequest, next_draw, ok, err,
}

-- `client` is the client of the mail service as the key that `resend.NewClient` is given.
pub record ResendClient : Type 0 where
  pub client : String
  pub resend_options : ResendOptions

abbrev pub new_resend_client : ResendOptions → ResendClient
new_resend_client resend_options = record {
  client = resend_options.api_key;
  resend_options = resend_options;
}

module _ (env : Env) (s : ResendClient) where
  -- `s.client.Emails.SendWithContext`
  abbrev send : SendEmailRequest → Action (Unit {0})
  send params w = elim (env.send_email w.draws s.client params) [
    | some e ↦ (err e, next_draw w)
    | none ↦ (ok tt, record w { draws = (next_draw w).draws; outbox = params ∷ w.outbox })
  ]

  unfoldable pub send_code : String → String → Action (Unit {0})
  send_code email code = do
    html ← from_outcome (env.otp_template code)
    send (record {
      from = s.resend_options.email;
      to = email ∷ [];
      subject = "OTP code";
      html = html;
    })
