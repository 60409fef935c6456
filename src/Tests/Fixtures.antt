-- ===== src/Tests/Fixtures.antt =====
-- Concrete inputs: keys that sign one token, a database with two tenants, and requests.
use axiler_fin.Base.{
  ◌≢◌, ℕ, ◌*◌, ◌/◌, ◌≤◌, ◌<◌, String, Bool, true, false, Option, none, some, List, [], ◌∷◌, Dict,
  ◌≡◌, refl, arith, ◌&&◌, ◌=ˢ◌, ◌==◌, ltb, leb, eq_iff, if◌then◌else◌, Bool-cases, inl, inr, subst,
}
use axiler_fin.Base.Int.{pos}
use axiler_fin.Base.Float.{fixed_point}
use axiler_fin.Models.{Time, Account, SyntheticDatabase}
use axiler_fin.Http.{Request, reader}
use axiler_fin.Auth.{TokenManager}
use axiler_fin.Auth.Interface.{Jwt, JwtLaws, TokenClaims, SigningMethod, rsa, ParsedToken, rsa_key}

abbrev pub alpha_claims : TokenClaims
alpha_claims = record {
  tenant_id = "alpha";
  user_id = "alpha_user";
  client_id = "alpha_key_123";
  issuer = "fintech-platform";
  subject = "alpha_user";
  expires_at = 86_405_000_000_000;
  issued_at = 5_000_000_000;
  not_before = 5_000_000_000;
}

abbrev same_claims : TokenClaims → Bool
same_claims c =
    c.tenant_id =ˢ "alpha"
    && (c.user_id =ˢ "alpha_user"
        && (c.client_id =ˢ "alpha_key_123"
            && (c.issuer =ˢ "fintech-platform"
                && (c.subject =ˢ "alpha_user"
                    && (c.expires_at == 86_405_000_000_000
                        && (c.issued_at == 5_000_000_000 && c.not_before == 5_000_000_000))))))

abbrev parse_alpha : Time → String → Option Bool → Option ParsedToken
parse_alpha now t none = none
parse_alpha now t (some key) =
    if t =ˢ "alpha_token" && (leb 5_000_000_000 now && ltb now 86_405_000_000_000)
    then some (record { valid = true; claims = some alpha_claims })
    else none

-- The keys sign the claims above alone. A public key is a truth value, of which one belongs to them.
abbrev pub one_token : Jwt
one_token = record {
  PrivateKey = Bool;
  RsaPublicKey = Bool;
  pem_decode = λ s. some s;
  parse_private = λ s. some true;
  parse_public = λ s. some (rsa_key true);
  numeric_date = λ t. t / 1_000_000_000 * 1_000_000_000;
  signed_string = λ k c. if same_claims c then some "alpha_token" else none;
  parse_with_claims = λ now t keys. parse_alpha now t (keys (rsa "RS256"));
  method_of = λ t. rsa "RS256";
  Verifies = λ k t c. (t ≡ "alpha_token") × (c ≡ alpha_claims);
  Pair = λ k p. k ≡ p;
}

num_eq : (a b : ℕ) → (a == b) ≡ true → a ≡ b
num_eq a b h = ground arith

both : (b c : Bool) → (b && c) ≡ true → (b ≡ true) × (c ≡ true)
both true c h = (refl, h)
both false c h = (absurd (ground arith), absurd (ground arith))

same_claims-eq : (c : TokenClaims) → same_claims c ≡ true → c ≡ alpha_claims
same_claims-eq c h =
    let (tenant, h1) = both (c.tenant_id =ˢ "alpha") _ h in
    let (user, h2) = both (c.user_id =ˢ "alpha_user") _ h1 in
    let (client, h3) = both (c.client_id =ˢ "alpha_key_123") _ h2 in
    let (issuer, h4) = both (c.issuer =ˢ "fintech-platform") _ h3 in
    let (subject, h5) = both (c.subject =ˢ "alpha_user") _ h4 in
    let (expires, h6) = both (c.expires_at == 86_405_000_000_000) _ h5 in
    let (issued, before) = both (c.issued_at == 5_000_000_000) _ h6 in
    λ i. record {
      tenant_id = (eq_iff c.tenant_id "alpha").0 tenant i;
      user_id = (eq_iff c.user_id "alpha_user").0 user i;
      client_id = (eq_iff c.client_id "alpha_key_123").0 client i;
      issuer = (eq_iff c.issuer "fintech-platform").0 issuer i;
      subject = (eq_iff c.subject "alpha_user").0 subject i;
      expires_at = num_eq c.expires_at 86_405_000_000_000 expires i;
      issued_at = num_eq c.issued_at 5_000_000_000 issued i;
      not_before = num_eq c.not_before 5_000_000_000 before i;
    }

signed-same :
    (k : Bool) (c : TokenClaims) (t : String)
    → one_token.signed_string k c ≡ some t
    → (c ≡ alpha_claims) × ("alpha_token" ≡ t)
signed-same k c t h = elim (Bool-cases (same_claims c)) [
  | inl same ↦
      let signed : some "alpha_token" ≡ some t = rw same at h in (same_claims-eq c same, cc signed)
  | inr other ↦ absurd (ground arith)
]

parse-early :
    (now : Time) (key : Option Bool)
    → 86_405_000_000_000 ≤ now
    → parse_alpha now "alpha_token" key ≡ none
parse-early now none h = refl
parse-early now (some k) h = ground arith

parse-in_time :
    (now : Time) (k : Bool)
    → 5_000_000_000 ≤ now
    → now < 86_405_000_000_000
    → parse_alpha now "alpha_token" (some k)
      ≡ some (record { valid = true; claims = some alpha_claims })
parse-in_time now k from before = ground arith

one_token-parses :
    (now : Time) (k : Bool) (public : Bool) (c : TokenClaims) (t : String)
    (keys : SigningMethod → Option Bool)
    → one_token.signed_string k c ≡ some t
    → keys (rsa "RS256") ≡ some public
    → c.not_before ≤ now
    → now < c.expires_at
    → parse_alpha now t (keys (rsa "RS256")) ≡ some (record { valid = true; claims = some c })
one_token-parses now k public c t keys signed known before expires =
    let (same, token) = signed-same k c t signed in
    rw (known, ← token, same)
      (parse-in_time now public (subst (λ u. u.not_before ≤ now) same before)
        (subst (λ u. now < u.expires_at) same expires))

one_token-expires :
    (now : Time) (k : Bool) (c : TokenClaims) (t : String) (keys : SigningMethod → Option Bool)
    → one_token.signed_string k c ≡ some t
    → c.expires_at ≤ now
    → parse_alpha now t (keys (rsa "RS256")) ≡ none
one_token-expires now k c t keys signed late =
    let (same, token) = signed-same k c t signed in
    rw (← token) (parse-early now (keys (rsa "RS256")) (subst (λ u. u.expires_at ≤ now) same late))

parse-verified :
    (now : Time) (t : String) (key : Option Bool) (p : ParsedToken) (c : TokenClaims)
    → parse_alpha now t key ≡ some p
    → p.claims ≡ some c
    → (k : Bool) × (key ≡ some k) × (t ≡ "alpha_token") × (c ≡ alpha_claims)
parse-verified now t none p c h held = absurd (ground arith)
parse-verified now t (some k) p c h held = elim (Bool-cases (t =ˢ "alpha_token")) [
  | inl same ↦
      let parsed : some alpha_claims ≡ p.claims = ground arith in
      (k, refl, (eq_iff t "alpha_token").0 same, ground arith)
  | inr other ↦ absurd (ground arith)
]

pub one_token-laws : JwtLaws one_token
one_token-laws = record {
  date-le = λ t. omega arith;
  lt-date = λ t. omega arith;
  parse-signed = λ now priv public c t keys pair signed known before issued expires.
      one_token-parses now priv public c t keys signed known before expires;
  parse-verified = λ now t keys p c h held.
      let (k, known, token, same) = parse-verified now t (keys (rsa "RS256")) p c h held in
      (k, known, (token, same));
  parse-expired = λ now priv c t keys signed late. one_token-expires now priv c t keys signed late;
}

abbrev pub manager : TokenManager one_token
manager = record {
  signing_key = true;
  verifying_key = true;
  issuer = "fintech-platform";
  expiry_hours = 24;
}

-- An amount of money, as a fixed-point number.
abbrev pub Amount : Type 0
Amount = fixed_point.F

abbrev pub money : ℕ → Amount
money n = fixed_point.of_int (pos n)

abbrev pub account : String → String → ℕ → Account Amount
account id tenant n = record {
  id = id;
  tenant_id = tenant;
  owner = "Owner";
  balance = money n;
  currency = "USD";
  status = "active";
  created_at = 1;
}

abbrev pub accounts : Dict (Account Amount)
accounts =
    ("a1", account "a1" "alpha" 100)
    ∷ ("a2", account "a2" "alpha" 20)
    ∷ ("b1", account "b1" "beta" 500)
    ∷ []

abbrev pub database : SyntheticDatabase Amount
database = record { accounts = accounts; transfers = []; ledger = [] }

abbrev pub post : String → Dict (List String) → List ℕ → Request
post uri header bytes = record {
  method = "POST";
  request_uri = uri;
  path = uri;
  raw_query = "";
  header = header;
  remote_addr = "10.0.0.1:4000";
  content_length = pos 2;
  body = reader bytes false;
}

abbrev pub with_token : Dict (List String)
with_token = ("Authorization", "Bearer alpha_token" ∷ []) ∷ ("User-Agent", "cli" ∷ []) ∷ []

pub apart : (s t : String) → (s =ˢ t) ≡ false → s ≢ t
apart s t h e = cc (h, (eq_iff s t).1 e)
