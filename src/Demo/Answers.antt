-- ===== src/Demo/Answers.antt =====
-- Every CoAP handler of the demo program, and the one of the library for the port of its streams,
-- answers once and then frees the request.
use edge_device_webrtc.Signaling.Manager.{has_access, handle_info, Manager}
use mathlib.Core.Path.{subst}
use mathlib.Core.Option
use edge_device_webrtc.Demo.Requests.{
  validate_token, challenge_response, device_fp, client_fp, nonce_of, token_validated,
  after_validation, handle_challenge_request, handle_oauth_request, Fingerprint, Curl, Iam,
}
use edge_device_webrtc.Json.{JsonOps}
use edge_device_webrtc.Demo.Coap.{
  create_all, refuse, feeds_of, create_legacy, is_some_format, answer_made, Made, handle_default,
  handle_legacy, handle_tracks, TracksOutcome, Request,
}
use edge_device_webrtc.Listeners.{response, refusal, request_free, RequestCall}
use edge_device_webrtc.Prelude.{
  codes, map-eq_some, some_injective, take, true, false, refl, inl, Option-cases, inr, none,
  Bool-cases, Text, Option, some, [], ◌∷◌, ◌≡◌, Bool, List, ℕ,
}
use edge_device_webrtc.Demo.Oauth.{Validator, JwtOps, PemOps}
use edge_device_webrtc.Demo.Streams.{MediaStream}

-- The libraries and devices that the handlers are given.
pub record World (S T J D Ks K : Type 0) : Type 0 where
  pub stream : MediaStream S T
  pub add_tracks : ℕ → List T → Bool
  pub json : JsonOps J
  pub jwt : JwtOps D Ks K
  pub pem : PemOps
  pub iam : Iam
  pub curl : Curl
  pub validator : Validator
  pub fp : Fingerprint → Option Text
  pub create_response : Text → Text → Text → Text

abbrev pub IsAnswer : RequestCall → Type 0
IsAnswer request_free = ⊥
IsAnswer c = Unit

-- One answer and then the release of the request.
abbrev pub AnsweredOnce : List RequestCall → Type 0
AnsweredOnce calls = (c : RequestCall) × IsAnswer c × (calls ≡ c ∷ request_free ∷ [])

module _ {S T J D Ks K : Type 0} (w : World S T J D Ks K) where
  -- The calls that a handler makes on a request to its end.
  pub data Served (req : Request) : List RequestCall → Type 0 where
    tracks_request :
        (allowed : Bool) (ms : List S) (o : TracksOutcome S T)
        → handle_tracks w.stream w.json w.add_tracks allowed req ms ≡ some o
        → Served req o.calls
    legacy_request :
        (allowed : Bool) (ms : List S) (o : TracksOutcome S T)
        → handle_legacy w.stream w.add_tracks allowed req ms ≡ some o
        → Served req o.calls
    default_request : (allowed : Bool) → Served req (handle_default w.json allowed)
    oauth_request :
        (calls : List RequestCall)
        → handle_oauth_request w.jwt w.pem w.iam w.curl w.validator req ≡ some calls
        → Served req calls
    info_request :
        (port : ℕ) (manager : Manager) → Served req (handle_info w.json port req.connection manager)
    challenge_request :
        Served req (handle_challenge_request w.json w.fp w.create_response req).calls

  answer_made-AnsweredOnce :
      (ref : ℕ) (made : Made S T) → AnsweredOnce (answer_made w.stream w.add_tracks ref made).calls
  unfolding answer_made
  answer_made-AnsweredOnce ref made = elim (Bool-cases (w.add_tracks ref made.tracks)) [
    | inr failed ↦ rw failed (refusal 500, tt, refl)
    | inl added ↦ elim (Bool-cases made.found) [
      | inl found ↦ rw (added, found) (response 201 [], tt, refl)
      | inr absent ↦ rw (added, absent) (refusal 404, tt, refl)
    ]
  ]

  made-AnsweredOnce :
      (ref : ℕ) (m : Option (Made S T)) (o : TracksOutcome S T)
      → Option.map (answer_made w.stream w.add_tracks ref) m ≡ some o
      → AnsweredOnce o.calls
  made-AnsweredOnce ref none o h = absurd cc
  made-AnsweredOnce ref (some made) o h =
      subst (λ p. AnsweredOnce p.calls) (some_injective h) (answer_made-AnsweredOnce ref made)

  validated-AnsweredOnce :
      (ref : ℕ) (o : Option (Bool × Text)) → AnsweredOnce (after_validation w.iam ref o)
  unfolding after_validation token_validated
  validated-AnsweredOnce ref none = (refusal 500, tt, refl)
  validated-AnsweredOnce ref (some (false, s)) = (refusal 401, tt, refl)
  validated-AnsweredOnce ref (some (true, s)) = elim (Option-cases (w.iam.find_user s)) [
    | inl missing ↦ rw missing (refusal 404, tt, refl)
    | inr (user, known) ↦ elim (Bool-cases (w.iam.authorize ref user)) [
      | inl granted ↦ rw (known, granted) (response 201 [], tt, refl)
      | inr denied ↦ rw (known, denied) (refusal 404, tt, refl)
    ]
  ]

  oauth-AnsweredOnce :
      (req : Request) (calls : List RequestCall)
      → handle_oauth_request w.jwt w.pem w.iam w.curl w.validator req ≡ some calls
      → AnsweredOnce calls
  unfolding handle_oauth_request
  oauth-AnsweredOnce req calls h = elim (Bool-cases (is_some_format 0 req.content_format)) [
    | inr other ↦ subst AnsweredOnce (some_injective (rw other at h)) (refusal 400, tt, refl)
    | inl plain ↦ elim (Option-cases req.payload) [
      | inl missing ↦
          subst AnsweredOnce (some_injective (rw (plain, missing) at h)) (refusal 400, tt, refl)
      | inr (token, present) ↦
          let (o, validated, same) =
            map-eq_some (after_validation w.iam req.connection)
              (validate_token w.jwt w.pem w.curl w.validator token) calls
              (rw (plain, present) at h) in
          subst AnsweredOnce same (validated-AnsweredOnce req.connection o)
    ]
  ]

  challenge-AnsweredOnce :
      (req : Request)
      → AnsweredOnce (handle_challenge_request w.json w.fp w.create_response req).calls
  unfolding handle_challenge_request
  challenge-AnsweredOnce req = elim (Option-cases (nonce_of w.json req)) [
    | inl missing ↦ rw (missing, handle_challenge_request) (refusal 400, tt, refl)
    | inr (n, named) ↦ elim (Option-cases (w.fp client_fp)) [
      | inl no_client ↦ rw (named, no_client, handle_challenge_request) (refusal 400, tt, refl)
      | inr (client, of_client) ↦ elim (Option-cases (w.fp device_fp)) [
        | inl no_device ↦
            rw (named, of_client, no_device, handle_challenge_request) (refusal 400, tt, refl)
        | inr (device, of_device) ↦
            rw (named, of_client, of_device, handle_challenge_request)
              (
                response 205 (
                    challenge_response w.json
                      (w.create_response (take 64 client) (take 64 device) n)),
                tt,
                refl,
              )
      ]
    ]
  ]

  refused-AnsweredOnce :
      (code : ℕ) (ms : List S) (o : TracksOutcome S T)
      → some (refuse w.stream code ms) ≡ some o
      → AnsweredOnce o.calls
  refused-AnsweredOnce code ms o h =
      subst (λ p. AnsweredOnce p.calls) (some_injective h) (refusal code, tt, refl)

  tracks-AnsweredOnce :
      (req : Request) (allowed : Bool) (ms : List S) (o : TracksOutcome S T)
      → handle_tracks w.stream w.json w.add_tracks allowed req ms ≡ some o
      → AnsweredOnce o.calls
  unfolding handle_tracks
  tracks-AnsweredOnce req false ms o h = refused-AnsweredOnce 401 ms o h
  tracks-AnsweredOnce req true ms o h =
      elim (Option-cases (feeds_of w.stream w.json w.add_tracks req)) [
        | inl invalid ↦ refused-AnsweredOnce 400 ms o (rw invalid at h)
        | inr (feeds, valid) ↦
            made-AnsweredOnce req.connection (create_all w.stream req.connection feeds ms) o
              (rw valid at h)
      ]

  legacy-AnsweredOnce :
      (req : Request) (allowed : Bool) (ms : List S) (o : TracksOutcome S T)
      → handle_legacy w.stream w.add_tracks allowed req ms ≡ some o
      → AnsweredOnce o.calls
  unfolding handle_legacy
  legacy-AnsweredOnce req false ms o h = refused-AnsweredOnce 401 ms o h
  legacy-AnsweredOnce req true ms o h =
      made-AnsweredOnce req.connection (create_legacy w.stream req.connection ms) o h

  default_ids-AnsweredOnce : (allowed : Bool) → AnsweredOnce (handle_default w.json allowed)
  unfolding handle_default
  default_ids-AnsweredOnce false = (refusal 401, tt, refl)
  default_ids-AnsweredOnce true = (_, tt, refl)

  info-AnsweredOnce :
      (port ref : ℕ) (manager : Manager) → AnsweredOnce (handle_info w.json port ref manager)
  unfolding handle_info
  info-AnsweredOnce port ref manager =
      elim (Bool-cases (has_access manager.access ref (codes "Webrtc:GetInfo"))) [
        | inl allowed ↦ rw allowed (_, tt, refl)
        | inr denied ↦ rw denied (refusal 401, tt, refl)
      ]

  -- Every CoAP handler that comes to its end has made exactly one answer on the request and then
  -- freed it, whatever the request holds and whichever way the libraries fail.
  pub Served-AnsweredOnce :
      (req : Request) (calls : List RequestCall) → Served req calls → AnsweredOnce calls
  Served-AnsweredOnce req _ (tracks_request allowed ms o h) = tracks-AnsweredOnce req allowed ms o h
  Served-AnsweredOnce req _ (legacy_request allowed ms o h) = legacy-AnsweredOnce req allowed ms o h
  Served-AnsweredOnce req _ (default_request allowed) = default_ids-AnsweredOnce allowed
  Served-AnsweredOnce req calls (oauth_request _ h) = oauth-AnsweredOnce req calls h
  Served-AnsweredOnce req _ challenge_request = challenge-AnsweredOnce req
  Served-AnsweredOnce req _ (info_request port manager) =
      info-AnsweredOnce port req.connection manager
