-- ===== src/ClientIp/Middleware.antt =====
-- What later code reads behind the middleware.
use skrift.TrustedProxy.{peer_of}
use skrift.ClientIp.{tag_of}
use skrift.Prelude.{
  some, if◌then◌else◌, ◌≡◌, refl, ◌≢◌, inl, inr, true, List, ◌==◌, ==_iff, ℕ_beq, string_beq,
  Bool-cases, Result, ok, raise,
}
use skrift.Prelude.Text.{Text, is_blank}
use skrift.TrustedProxy.{IpLibrary, Network, Provenance, StrictResolutionError}
use skrift.TrustedProxy.Client.{IsJustified, Fits, resolve_client_ip-Fits}
use skrift.ClientIp.{
  RequestScope, ResolutionConfig, Outcome, passed, bad_request, websocket_close, get_client_ip,
  is_request, answer, handle,
}

module _ {V4 V6 N4 N6 : Type 0} (lib : IpLibrary V4 V6 N4 N6) (trusted : List (Network N4 N6))
    (config : ResolutionConfig) (request : RequestScope) where
  -- The app finds a justified address and its tag stored, and reads that address, or the peer if
  -- it is blank; or an answer was given in strict mode, which fits the kind of the connection.
  abbrev pub IsSound : Outcome → Type 0
  IsSound (passed seen) =
      (ip : Text) × (provenance : Provenance) × (seen.state
        ≡ some (record { client_ip = some ip; client_ip_source = some (tag_of provenance) }))
      × IsJustified lib trusted request.scope config.client_ip_header config.cdn_header
          config.strict config.max_hops ip provenance
      × (seen.scope ≡ request.scope)
      × (get_client_ip seen ≡ (if is_blank ip then peer_of request.scope else ip))
  IsSound (bad_request err) = (config.strict ≡ true) × (request.scope_type ≡ "http")
  IsSound (websocket_close code) =
      (config.strict ≡ true) × (request.scope_type ≢ "http") × (code ≡ 1008)

  answer-IsSound :
      (r : Result StrictResolutionError (Text × Provenance))
      → Fits lib trusted request.scope config.client_ip_header config.cdn_header config.strict
          config.max_hops r
      → IsSound (answer request r)
  unfolding get_client_ip
  answer-IsSound (ok (ip, source)) f = elim (Bool-cases (is_blank ip)) [
    | inl blank ↦ (ip, source, refl, f, refl, rw (blank, get_client_ip) refl)
    | inr written ↦ (ip, source, refl, f, refl, rw (written, get_client_ip) refl)
  ]
  answer-IsSound (raise err) f = elim (Bool-cases (request.scope_type == "http")) [
    | inl http ↦ rw http (f, (==_iff request.scope_type "http").0 http)
    | inr other ↦ rw other (f, (λ e. cc ((==_iff request.scope_type "http").1 e, other)), refl)
  ]

  -- For HTTP requests and websockets: if the app is called, an address and a tag are stored that
  -- the resolution justifies for this scope, `max_hops` and mode: behind a trusted proxy no hop
  -- is stored past a valid one that is not trusted. `get_client_ip` then reads the stored address,
  -- or the peer if it is blank. Otherwise the mode is strict, and an HTTP request is answered as a
  -- bad request, and a websocket closed with code 1008.
  pub handle-IsSound :
      is_request request.scope_type ≡ true → IsSound (handle lib trusted config request)
  unfolding handle
  handle-IsSound h =
      rw (h, handle)
        (answer-IsSound _ (
          resolve_client_ip-Fits lib trusted request.scope config.client_ip_header config.cdn_header
            config.strict config.max_hops))
