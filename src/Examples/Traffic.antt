-- ===== src/Examples/Traffic.antt =====
-- Requests to the proxy, Nomad's answer, and the libraries that they pass through.
use nacp.Common.{ℕ, String, false, Option, none, some, [], ◌∷◌, length}
use nacp.GoError.{message, Result, ok, err}
use nacp.Config.{AclToken}
use nacp.Http.{Bytes, buffer, Response}
use nacp.Proxy.Context.{Request, TokenService}
use nacp.Proxy.Handlers.{Envelope, EnvelopeCodec, Codecs}
use nacp.Proxy.Responses.{Responder, ResponseCodec, WarningResponse}
use nacp.Examples.Data.{multierror}

abbrev pub decode_envelope : Bytes → Result (Envelope ℕ (Unit {0}))
decode_envelope [] = err (message "EOF")
decode_envelope (n ∷ ns) = ok (record { job = some n; rest = tt })

abbrev pub marshal_envelope : Option ℕ → Result Bytes
marshal_envelope none = ok []
marshal_envelope (some n) = ok (n ∷ [])

abbrev pub envelopes : EnvelopeCodec ℕ (Unit {0})
envelopes = record { decode = λ r. decode_envelope r.bytes; marshal = λ e. marshal_envelope e.job }

abbrev pub codecs : Codecs ℕ (Unit {0})
codecs = record { register = envelopes; plan = envelopes; validate = envelopes }

abbrev pub request : String → Bytes → Request
request path body = record {
  method = "PUT";
  path = path;
  headers = ("X-Nomad-Token", "secret") ∷ [];
  remote_addr = "10.0.0.1";
  body = buffer body;
  content_length = some (length body);
  values = record { warnings = none; validation_error = none; request_context = none };
}

abbrev pub token : AclToken
token = record {
  accessor_id = "accessor";
  secret_id = "secret";
  name = "dev";
  type = "client";
  policies = "dev" ∷ [];
  roles = [];
  global = false;
  create_time = 0;
  expiration_time = none;
  create_index = 1;
  modify_index = 1;
}

abbrev pub nomad_response : Response
nomad_response = record {
  status_code = 200;
  status = "200 OK";
  headers = [];
  body = buffer (4 ∷ []);
  content_length = some 1;
}

abbrev pub tokens : TokenService
tokens = record {
  self_url = "http://localhost:4646/v1/acl/token/self";
  send = λ r. ok nomad_response;
  decode_token = λ b. ok token;
  split_host_port = λ s. ok s;
}

abbrev pub answers : Request → Result Response
answers r = ok nomad_response

abbrev pub warning_responses : ResponseCodec (WarningResponse (Unit {0}))
warning_responses = record {
  decode = λ r. ok (record { warnings = "old"; rest = tt });
  marshal = λ a. ok (1 ∷ 2 ∷ []);
}

abbrev pub responder : Responder (Unit {0})
responder = record {
  multierror = multierror;
  merge_warnings = λ es. "warnings";
  gzip = record { new_reader = λ r. ok r; compress = λ b. ok b };
  register = warning_responses;
  plan = warning_responses;
  validate = record {
    decode = λ r. ok (record { validation_errors = []; error = ""; warnings = ""; rest = tt });
    marshal = λ a. ok [];
  };
}
