-- ===== src/Service/Access.antt =====
-- service/warp.go and service/service.go: who may call a handler, and what an update keeps.
use wqs.Common.{
  ◌≡◌, ◌≢◌, refl, sym, ap, ◌∙◌, true, Bool-cases, Option-cases, some, List, [], ◌∷◌, ◌++◌, inl, inr,
  Bytes, arith,
}
use wqs.Common.Eq.{bytes_eq, bytes_eq_iff}
use wqs.Service.{
  Encoding, basic_auth_prefix, after_prefix, has_token, credentials_known, payload_is_known,
  basic_auth_warp,
}

-- A header with the prefix, whose rest decodes to a token of the list.
pub record IsAuthorized (enc : Encoding) (user_and_pws : List Bytes) (auth : Bytes) : Type 0 where
  pub payload : Bytes
  pub token : Bytes
  pub header : auth ≡ basic_auth_prefix ++ payload
  pub decoded : enc.decode_base64 payload ≡ some token
  pub before : List Bytes
  pub after : List Bytes
  pub listed : user_and_pws ≡ before ++ token ∷ after

after_prefix-append :
    (prefix text rest : Bytes) → after_prefix prefix text ≡ some rest → text ≡ prefix ++ rest
unfolding after_prefix
after_prefix-append [] text rest h = ground arith
after_prefix-append (c ∷ prefix) [] rest h = absurd (cc)
after_prefix-append (c ∷ prefix) (d ∷ text) rest h =
    ground (arith, after_prefix-append prefix text rest, bytes_eq_iff (c ∷ []) (d ∷ []))

-- A token that is accepted stands in the list.
has_token-listed :
    (user_and_pws : List Bytes) (token : Bytes)
    → has_token user_and_pws token ≡ true
    → (before : List Bytes) × (after : List Bytes) × (user_and_pws ≡ before ++ token ∷ after)
unfolding has_token
has_token-listed [] token h = absurd cc
has_token-listed (first ∷ rest) token h = elim (Bool-cases (bytes_eq first token)) [
  | inl same ↦ ([], rest, ap (λ t. t ∷ rest) ((bytes_eq_iff first token).0 same))
  | inr other ↦
      let (before, after, e) = has_token-listed rest token (ground arith) in
      (first ∷ before, after, ap (◌∷◌ first) e)
]

credentials_known-IsAuthorized :
    (enc : Encoding) (user_and_pws : List Bytes) (auth : Bytes)
    → credentials_known enc user_and_pws (after_prefix basic_auth_prefix auth) ≡ true
    → IsAuthorized enc user_and_pws auth
credentials_known-IsAuthorized enc user_and_pws auth h =
    elim (Option-cases (after_prefix basic_auth_prefix auth)) [
      | inl other ↦ absurd (ground (arith, ap (credentials_known enc user_and_pws) other))
      | inr (payload, found) ↦
          let known : payload_is_known user_and_pws (enc.decode_base64 payload) ≡ true =
            sym (ap (credentials_known enc user_and_pws) found) ∙ h in
          elim (Option-cases (enc.decode_base64 payload)) [
            | inl bad ↦ absurd (ground (arith, ap (payload_is_known user_and_pws) bad))
            | inr (token, decoded) ↦
                let (before, after, e) =
                  has_token-listed user_and_pws token
                    (sym (ap (payload_is_known user_and_pws) decoded) ∙ known) in
                record {
                  before = before;
                  after = after;
                  payload = payload;
                  token = token;
                  header = after_prefix-append basic_auth_prefix auth payload found;
                  decoded = decoded;
                  listed = e;
                }
          ]
    ]

-- Behind BasicAuthWarp, a request that changes the state came with the prefix and a payload that
-- decodes to one of the listed users and passwords.
pub basic_auth_warp-IsAuthorized :
    {S A : Type 0} (enc : Encoding) (user_and_pws : List Bytes) (unauthorized : A)
    (handle : S → S × A) (auth : Bytes) (s : S)
    → (basic_auth_warp enc user_and_pws unauthorized handle auth s).0 ≢ s
    → IsAuthorized enc user_and_pws auth
unfolding basic_auth_warp
basic_auth_warp-IsAuthorized enc user_and_pws unauthorized handle auth s changed =
    elim (Bool-cases (credentials_known enc user_and_pws (after_prefix basic_auth_prefix auth))) [
      | inl known ↦ credentials_known-IsAuthorized enc user_and_pws auth known
      | inr unknown ↦ absurd (changed (rw unknown refl))
    ]
