-- ===== src/Gateway/Request.antt =====
-- What src/infrastructure/websocket/gateway.ts reads of the request that opens a connection:
-- `clientIp` and `extractToken`. What `URL` finds as the query's `token` is a parameter.
use realtime_game_server.Base.{
  ℕ, zero, suc, ◌∙◌, sym, ◌≡◌, ◌≢◌, refl, Bool, true, false, not, ◌&&◌, Option, none, some, List,
  [], ◌∷◌, ◌++◌, arith, Option-cases, Bool-cases, inl, inr, if◌then◌else◌,
}
use realtime_game_server.Base.Text.Split.{split_append}
use realtime_game_server.Base.Text.{Text, codes, is_empty, trim, split, lacks, starts_with}

-- the header `x-forwarded-for`: one text or several
pub data Forwarded : Type 0 where
  one : Text → Forwarded
  several : List Text → Forwarded

pub record Request : Type 0 where
  pub authorization : Option Text
  pub forwarded_for : Option Forwarded
  pub remote_address : Option Text
  pub query_token : Option Text

-- `a || b`
abbrev pub or_text : Option Text → Text → Text
or_text none b = b
or_text (some []) b = b
or_text (some (c ∷ cs)) b = c ∷ cs

abbrev pub first_part : List Text → Option Text
first_part [] = none
first_part (part ∷ _) = some (trim part)

-- the address, where no proxy is asked
abbrev pub peer : Request → Text
peer request = or_text request.remote_address (codes "unknown")

unfoldable pub client_ip : (trust_proxy : Bool) → Request → Text
client_ip trust_proxy request = elim request.forwarded_for [
  | none ↦ peer request
  | some header ↦ elim header [
    | several _ ↦ peer request
    | one forwarded ↦
        if not (is_empty forwarded) && trust_proxy
        then or_text (first_part (split b',' forwarded)) (peer request)
        else peer request
  ]
]

-- `text.slice(7)`
unfoldable pub slice : ℕ → Text → Text
slice zero text = text
slice (suc n) [] = []
slice (suc n) (_ ∷ text) = slice n text

abbrev query_token_of : Option Text → Option Text
query_token_of none = none
query_token_of (some []) = none
query_token_of (some (c ∷ cs)) = some (c ∷ cs)

-- `none` stands for the throw
unfoldable pub extract_token : Request → Option Text
unfolding slice
extract_token request = elim request.authorization [
  | none ↦ query_token_of request.query_token
  | some auth ↦
      if starts_with (codes "Bearer ") auth
      then some (slice 7 auth)
      else query_token_of request.query_token
]

or_text_some : (a : Option Text) (b : Text) → b ≢ [] → or_text a b ≢ []
or_text_some none b n = n
or_text_some (some []) b n = n
or_text_some (some (c ∷ cs)) b n = λ e. absurd (ground (arith, e))

peer_some : (request : Request) → peer request ≢ []
peer_some request =
    or_text_some request.remote_address (codes "unknown") (λ e. absurd (ground (arith, e)))

client_ip_some : (trust : Bool) (request : Request) → client_ip trust request ≢ []
unfolding client_ip
client_ip_some trust request = elim (Option-cases request.forwarded_for) [
  | inl absent ↦ rw (absent, client_ip) (peer_some request)
  | inr (several parts, found) ↦ rw (found, client_ip) (peer_some request)
  | inr (one forwarded, found) ↦ elim (Bool-cases (not (is_empty forwarded) && trust)) [
    | inr bare ↦ rw (found, bare, client_ip) (peer_some request)
    | inl asked ↦
        rw (found, asked, client_ip)
          (or_text_some (first_part (split b',' forwarded)) (peer request) (peer_some request))
  ]
]

client_ip_untrusted :
    (request : Request) (header : Option Forwarded)
    → client_ip false (record request { forwarded_for = header }) ≡ peer request
unfolding client_ip
client_ip_untrusted request none = refl
client_ip_untrusted request (some (several parts)) = refl
client_ip_untrusted request (some (one forwarded)) = ground arith

appended_some : (part rest : Text) → is_empty (part ++ b',' ∷ rest) ≡ false
appended_some [] rest = refl
appended_some (c ∷ cs) rest = refl

or_text_kept : (a b : Text) → a ≢ [] → or_text (some a) b ≡ a
or_text_kept [] b n = absurd (n refl)
or_text_kept (c ∷ cs) b n = refl

client_ip_trusted :
    (request : Request) (part rest : Text)
    → lacks b',' part ≡ true
    → trim part ≢ []
    → client_ip true (record request { forwarded_for = some (one (part ++ b',' ∷ rest)) })
      ≡ trim part
unfolding client_ip
client_ip_trusted request part rest h n =
    rw (appended_some part rest, split_append b',' part rest h)
      (or_text_kept (trim part) (peer request) n)

-- The address is never empty; without the trust in a proxy the header does not change it, and with it
-- the header's first part is the address, if it is more than white space.
client_ip_lem :
    (request : Request) (header : Option Forwarded) (part rest : Text)
    → lacks b',' part ≡ true
    → trim part ≢ []
    → ((trust : Bool) → client_ip trust request ≢ [])
      × (client_ip false (record request { forwarded_for = header }) ≡ client_ip false request)
      × (client_ip true (record request { forwarded_for = some (one (part ++ b',' ∷ rest)) })
          ≡ trim part)
client_ip_lem request header part rest h n = (
  (λ trust. client_ip_some trust request),
  client_ip_untrusted request header ∙ sym (client_ip_untrusted request request.forwarded_for),
  client_ip_trusted request part rest h n,
)
