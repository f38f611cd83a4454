-- ===== src/Auth/Examples.antt =====
-- src/auth: a session whose token has run out, over crates that keep their promises.
use syncgdrive.Base.{
  ◌≤◌, Text, codes, false, length, length-append, none, some, [], ◌∷◌, ◌++◌, Result, ok, bail,
  ◌>>=◌, ◌≡◌, refl, sym, ap, arith,
}
use mathlib.Core.Path.{subst}
use syncgdrive.Auth.{
  load, clear, store, write_file, open_tokens, GoogleTokens, Bytes, Crates, Outside, Vault,
  split_at,
}
use syncgdrive.Auth.Consent.{add_seconds, seconds_of, Google}
use syncgdrive.Auth.Session.{refresh, save_tokens, renewed, is_later, get_valid_token, revoke_token}
use syncgdrive.Auth.Stored.{split_at-append, get_valid_token-Stored, Stored}

abbrev twelve : Bytes
twelve = 7 ∷ 7 ∷ 7 ∷ 7 ∷ 7 ∷ 7 ∷ 7 ∷ 7 ∷ 7 ∷ 7 ∷ 7 ∷ 7 ∷ []

abbrev tag : Bytes
tag = 0 ∷ 0 ∷ 0 ∷ 0 ∷ twelve

abbrev encode : GoogleTokens → Text
encode t =
    t.expires_at
    ∷ length t.access_token
    ∷ length t.refresh_token
    ∷ (t.access_token ++ (t.refresh_token ++ t.scope))

abbrev decode : Text → Result GoogleTokens
decode (e ∷ n ∷ m ∷ rest) =
    let (access, rest') = split_at n rest in
    let (refresh, scope) = split_at m rest' in
    ok (record { access_token = access; refresh_token = refresh; expires_at = e; scope = scope })
decode _ = bail (codes "EOF")

decode-encode : (t : GoogleTokens) → decode (encode t) ≡ ok t
decode-encode t =
    rw
      (
        split_at-append t.access_token (t.refresh_token ++ t.scope),
        split_at-append t.refresh_token t.scope,
      )
      refl

abbrev crates : Crates
crates = record {
  sha256 = λ s. s;
  encrypt = λ key nonce plaintext. some (tag ++ plaintext);
  decrypt = λ key nonce ciphertext. some (split_at 16 ciphertext).1;
  to_json = λ t. ok (encode t);
  from_json = decode;
  as_bytes = λ s. s;
  from_utf8 = ok;
}

some_injective : {A : Type 0} (a b : A) → some a ≡ some b → a ≡ b
some_injective a b e = ground (arith, e)

ok_injective : {A : Type 0} (a b : A) → ok a ≡ ok b → a ≡ b
ok_injective a b e = ground (arith, e)

sealed :
    (nonce plaintext ciphertext : Bytes)
    → crates.encrypt [] nonce plaintext ≡ some ciphertext
    → (crates.decrypt [] nonce ciphertext ≡ some plaintext) × (16 ≤ length ciphertext)
sealed nonce plaintext ciphertext e =
    let same = sym (some_injective (tag ++ plaintext) ciphertext e) in
    (
      rw (same) (ap (λ p. some p.1) (split_at-append tag plaintext)),
      rw (same) (omega (arith, length-append tag plaintext)),
    )

abbrev outside : Outside
outside = record { nonce = λ n. twelve; disk_call = λ n. ok tt; remains = λ n file. none }

abbrev google : Google
google = record {
  bind = λ n. ok tt;
  build_client = λ n. ok tt;
  csrf_token = λ n. codes "state";
  pkce_verifier = λ n. codes "verifier";
  request_line = λ n. bail (codes "closed");
  write_response = λ n. ok tt;
  is_whitespace = λ c. false;
  query_pairs = λ url. ok [];
  exchange_code = λ code verifier n. bail (codes "denied");
  exchange_refresh_token = λ token n.
      ok (record { access_token = codes "new"; refresh_token = none; expires_in = some 3600 });
  timestamp = λ n. 1700000000;
  revoke = λ token n. ok tt;
  about_user = λ token n. ok (codes "a@b.c");
}

-- The token in the file has four minutes left.
abbrev old : GoogleTokens
old = record {
  access_token = codes "old";
  refresh_token = codes "r";
  expires_at = 1700000240;
  scope = codes "drive.file";
}

abbrev vault : Vault
vault = record { file = some (twelve ++ (tag ++ encode old)); looks = 0 }

-- The token is refreshed, and the file then opens to the new one.
get_valid_token_test : (get_valid_token crates outside [] google vault).0 ≡ ok (codes "new")
unfolding get_valid_token load refresh save_tokens store write_file open_tokens split_at renewed
    is_later add_seconds seconds_of ◌>>=◌
get_valid_token_test = refl

get_valid_token-Stored_example :
    Stored crates outside [] (codes "new") (get_valid_token crates outside [] google vault).1
get_valid_token-Stored_example =
    get_valid_token-Stored crates outside [] (λ n. refl) sealed (λ t. refl)
      (λ t json e. subst (λ x. decode x ≡ ok t) (ok_injective (encode t) json e) (decode-encode t))
      google vault (codes "new") get_valid_token_test

-- Revoking the token takes the file away.
revoke_token_test : (revoke_token crates outside [] google vault).1.file ≡ none
unfolding revoke_token load clear open_tokens split_at ◌>>=◌
revoke_token_test = refl
