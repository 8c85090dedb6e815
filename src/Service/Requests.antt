-- ===== src/Service/Requests.antt =====
-- service/service.go: the handlers that answer with a status.
use wqs.Common.{Bool, true, false, List, [], ◌∷◌, ◌⊎◌, inl, inr, Bytes, codes}
use wqs.Common.Int.{ℤ}
use wqs.Common.Dict.{Dict}
use wqs.Engine.{not_found, Result, ok, err}
use wqs.Service.{Queue, Encoding, ResponseMessage, response}

unfoldable pub has_empty : List Bytes → Bool
has_empty [] = false
has_empty ([] ∷ idcs) = true
has_empty ((c ∷ idc) ∷ idcs) = has_empty idcs

module _ {S : Type 0} (q : Queue S) (enc : Encoding) where
  abbrev pub created : S × Result (Unit {0}) → S × ResponseMessage
  created (s, ok _) = response s 201 (codes "created")
  created (s, err e) = response s 500 (enc.error_text e)

  abbrev pub create_with : Bytes → List Bytes ⊎ Bytes → S → S × ResponseMessage
  create_with queue (inr text) s = response s 400 text
  create_with queue (inl idcs) s = elim (has_empty idcs) [
    | true ↦ response s 400 (codes "has empty idc name")
    | false ↦ created (q.create queue idcs s)
  ]

  -- The name of the queue in the path, and the body.
  unfoldable pub create_queue_handler : Bytes → Bytes → S → S × ResponseMessage
  create_queue_handler [] body s = response s 400 (codes "empty queue name")
  create_queue_handler (c ∷ queue) body s = create_with (c ∷ queue) (enc.queue_attr body) s

  abbrev pub text_response : S → Bytes ⊎ Bytes → S × ResponseMessage
  text_response s (inl text) = response s 200 text
  text_response s (inr text) = response s 500 text

  abbrev pub proxies_response : S × Result (Dict Bytes Bytes) → S × ResponseMessage
  proxies_response (s, ok proxys) = text_response s (enc.proxys_text proxys)
  proxies_response (s, err e) = response s 500 (enc.error_text e)

  unfoldable pub get_proxies_handler : S → S × ResponseMessage
  get_proxies_handler s = proxies_response (q.proxys s)

  abbrev pub config_response : S × Result Bytes → S × ResponseMessage
  config_response (s, ok config) = response s 200 config
  config_response (s, err not_found) = response s 404 (enc.error_text not_found)
  config_response (s, err e) = response s 500 (enc.error_text e)

  abbrev pub config_by_number : ℤ ⊎ Bytes → S → S × ResponseMessage
  config_by_number (inr text) s = response s 400 text
  config_by_number (inl id) s = config_response (q.get_proxy_config_by_id id s)

  unfoldable pub get_proxy_config_by_id_handler : Bytes → S → S × ResponseMessage
  get_proxy_config_by_id_handler [] s = response s 400 (codes "invalid proxy id")
  get_proxy_config_by_id_handler (c ∷ id) s = config_by_number (enc.atoi (c ∷ id)) s

  unfoldable pub get_version : S → S × ResponseMessage
  get_version s = response s 200 q.version
