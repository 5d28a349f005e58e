-- ===== src/Ddi/State/Credentials.antt =====
-- The credentials of the client: a key pair and an Authorization header are never sent together,
-- but nothing removes the header of an earlier token.
use up2date_cpp.Base.{◌≡◌, ◌∙◌, ap, true, [], ◌∷◌, ◌++◌}
use up2date_cpp.Text.{Text}
use up2date_cpp.Outcome.{Result, ok, throw, fault, ◌>>=◌}
use up2date_cpp.Multimap.{
  find_all, IsSorted, insert-IsSorted, erase-IsSorted, find_all-erase_self, find_all-insert_self,
}
use up2date_cpp.Uri.{from_string}
use up2date_cpp.Ddi.Endpoint.{hawkbit_endpoint_from}
use up2date_cpp.Ddi.State.{
  Client, authorization_header, gateway_token_header, target_token_header, format_auth_header,
  set_tls, set_device_token, set_gateway_token, set_endpoint, set_controller_endpoint, RestoreCall,
  apply_restore, Signal, apply_signal,
}

-- The header map is in order, and with a key pair there is no Authorization header.
pub record IsExclusive (c : Client) : Type 0 where
  pub sorted : IsSorted c.default_headers
  pub exclusive : c.tls.is_set ≡ true → find_all authorization_header c.default_headers ≡ []

abbrev pub OkIsExclusive : Result Client → Type 0
OkIsExclusive (ok c) = IsExclusive c
OkIsExclusive _ = Unit

pub set_tls-IsExclusive :
    (crt key : Text) (c : Client) → IsExclusive c → IsExclusive (set_tls crt key c)
unfolding set_tls
set_tls-IsExclusive crt key c h = record {
  sorted = erase-IsSorted authorization_header c.default_headers h.sorted;
  exclusive = λ _. find_all-erase_self authorization_header c.default_headers;
}

pub set_device_token-IsExclusive :
    (token : Text) (c : Client) → IsExclusive c → IsExclusive (set_device_token token c)
unfolding set_device_token
set_device_token-IsExclusive token c h = record {
  sorted = insert-IsSorted authorization_header _ c.default_headers h.sorted;
  exclusive = λ e. cc;
}

pub set_gateway_token-IsExclusive :
    (token : Text) (c : Client) → IsExclusive c → IsExclusive (set_gateway_token token c)
unfolding set_gateway_token
set_gateway_token-IsExclusive token c h = record {
  sorted = insert-IsSorted authorization_header _ c.default_headers h.sorted;
  exclusive = λ e. cc;
}

OkIsExclusive-bind :
    {A : Type 0} (r : Result A) (f : A → Result Client)
    → ((a : A) → OkIsExclusive (f a))
    → OkIsExclusive (r >>= f)
OkIsExclusive-bind (ok a) f h = h a
OkIsExclusive-bind (throw e) f h = tt
OkIsExclusive-bind (fault e) f h = tt

set_endpoint-IsExclusive :
    (endpoint : Text) (c : Client) → IsExclusive c → OkIsExclusive (set_endpoint endpoint c)
unfolding set_endpoint
set_endpoint-IsExclusive endpoint c h =
    OkIsExclusive-bind (from_string endpoint) _
      (λ u. record { sorted = h.sorted; exclusive = h.exclusive })

-- Every method of `AuthRestoreHandler` that succeeds keeps the credentials exclusive.
pub apply_restore-IsExclusive :
    (k : RestoreCall) (c : Client) → IsExclusive c → OkIsExclusive (apply_restore k c)
unfolding apply_restore set_controller_endpoint
apply_restore-IsExclusive (RestoreCall.tls_call crt key) c h = set_tls-IsExclusive crt key c h
apply_restore-IsExclusive (RestoreCall.endpoint_call e) c h = set_endpoint-IsExclusive e c h
apply_restore-IsExclusive (RestoreCall.controller_endpoint_call e i t) c h =
    OkIsExclusive-bind (hawkbit_endpoint_from e i t) _ (λ full. set_endpoint-IsExclusive full c h)
apply_restore-IsExclusive (RestoreCall.device_token_call t) c h = set_device_token-IsExclusive t c h
apply_restore-IsExclusive (RestoreCall.gateway_token_call t) c h =
    set_gateway_token-IsExclusive t c h

pub apply_signal-IsExclusive :
    (x : Signal) (c : Client) → IsExclusive c → IsExclusive (apply_signal x c)
unfolding apply_signal
apply_signal-IsExclusive Signal.stop_signal c h = record {
  sorted = h.sorted;
  exclusive = h.exclusive;
}
apply_signal-IsExclusive Signal.poll_signal c h = record {
  sorted = h.sorted;
  exclusive = h.exclusive;
}

-- If the headers are in key order, setting a device token and then a gateway token leaves both
-- Authorization headers, behind those that were there before.
pub find_all-set_gateway_token :
    (device gateway : Text) (c : Client)
    → IsSorted c.default_headers
    → find_all authorization_header
        (set_gateway_token gateway (set_device_token device c)).default_headers
      ≡ (find_all authorization_header c.default_headers
          ++ format_auth_header target_token_header device ∷ [])
        ++ format_auth_header gateway_token_header gateway ∷ []
unfolding set_device_token set_gateway_token
find_all-set_gateway_token device gateway c h =
    find_all-insert_self authorization_header (format_auth_header gateway_token_header gateway) _
      (insert-IsSorted authorization_header _ c.default_headers h)
    ∙ ap (λ l. l ++ format_auth_header gateway_token_header gateway ∷ [])
        (find_all-insert_self authorization_header (format_auth_header target_token_header device)
          c.default_headers h)
