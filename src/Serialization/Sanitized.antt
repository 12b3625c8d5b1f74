-- ===== src/Serialization/Sanitized.antt =====
-- A sanitized URL does not show the password.
use mathlib.Core.List.{append_assoc, append-nil}
use nameko_zh_cn.Base.{
  Str, false, Option, some, [], ◌∷◌, ◌++◌, All, eqb, if◌then◌else◌, ◌≡◌, ap, ◌∙◌, sym,
}
use nameko_zh_cn.Serialization.{after_last_at, redacted_password, hidden, sanitize_url}

after_last_at-host :
    (seen host : Str) → All (λ c. eqb c b'@' ≡ false) host → after_last_at seen host ≡ seen ++ host
unfolding after_last_at
after_last_at-host seen [] h = sym (append-nil seen)
after_last_at-host seen (c ∷ host) h =
    rw h.0 (after_last_at-host (seen ++ c ∷ []) host h.1 ∙ append_assoc seen (c ∷ []) host)

after_last_at-append :
    (seen s host : Str)
    → All (λ c. eqb c b'@' ≡ false) host
    → after_last_at seen (s ++ b'@' ∷ host) ≡ host
unfolding after_last_at
after_last_at-append seen [] host h = after_last_at-host [] host h
after_last_at-append seen (c ∷ s) host h =
    after_last_at-append (if eqb c b'@' then [] else seen ++ c ∷ []) s host h

module _ {Rest : Type 0} (urlparse : Str → Str × Rest) (geturl : Str → Rest → Str)
    (username password : Str → Option Str) where
  -- A URL whose netloc is user:password@host, as urllib reads it, is shown with asterisks for the
  -- password, whatever the password is, and with its other parts as they were. The host has no @.
  pub password_is_hidden :
      (url user secret host : Str) (rest : Rest)
      → urlparse url ≡ (user ++ b':' ∷ (secret ++ b'@' ∷ host), rest)
      → username (user ++ b':' ∷ (secret ++ b'@' ∷ host)) ≡ some user
      → password (user ++ b':' ∷ (secret ++ b'@' ∷ host)) ≡ some secret
      → All (λ c. eqb c b'@' ≡ false) host
      → sanitize_url urlparse geturl username password url
        ≡ geturl (user ++ b':' ∷ (redacted_password ++ b'@' ∷ host)) rest
  unfolding sanitize_url hidden
  password_is_hidden url user secret host rest parsed named has h =
      rw (parsed, has, named)
        (ap (λ t. geturl (user ++ b':' ∷ (redacted_password ++ b'@' ∷ t)) rest)
          (ap (after_last_at []) (sym (append_assoc user (b':' ∷ secret) (b'@' ∷ host)))
            ∙ after_last_at-append [] (user ++ b':' ∷ secret) host h))
