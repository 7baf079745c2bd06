-- ===== src/Notation.antt =====
-- pkg/admissionctrl/notation/notation.go: the verification of images, and what it is loaded from. The
-- libraries of notation and of oras, files and JSON are parameters.
use nacp.Common.{String, Bool, Option, some}
use nacp.Common.Int.{ℤ}
use nacp.GoError.{GoError, Result, ok, err, ◌>>=◌}
use nacp.Http.{Bytes}

-- The interface `ImageVerifier`: an error, or none if the image is signed as the policy wants.
pub record ImageVerifier : Type 0 where
  pub verify_image : String → Option GoError

pub record NotationLibrary : Type 1 where
  pub Document : Type 0
  pub Verifier : Type 0
  pub Store : Type 0
  pub Repository : Type 0
  pub read_file : String → Result Bytes
  -- `json.Unmarshal` onto a `trustpolicy.Document`.
  pub unmarshal_document : Bytes → Result Document
  -- `verifier.New`, for the X.509 trust store in a directory.
  pub new_verifier : Document → String → Result Verifier
  -- `credentials.NewFileStore`
  pub new_file_store : String → Result Store
  pub new_repository : String → Result Repository
  pub set_plain_http : Bool → Repository → Repository
  -- The client of a repository, which logs in with the credentials of a store.
  pub set_client : Store → Repository → Repository
  -- `notation.Verify`, for an image and a limit on the signatures that are tried.
  pub verify : Verifier → Repository → String → ℤ → Option GoError

module _ (L : NotationLibrary) where
  open L use {
    Document, Verifier, Store, read_file, unmarshal_document, new_verifier, new_file_store,
    new_repository, set_plain_http, set_client, verify,
  }

  -- `notationImageVerifier`. The client is the store that it logs in with.
  pub record NotationImageVerifier : Type 0 where
    pub verifier : Verifier
    pub repo_plain_http : Bool
    pub max_signature_attempts : ℤ
    pub client : Store

  -- `LoadTrustPolicyDocument`
  unfoldable pub load_trust_policy_document : String → Result Document
  load_trust_policy_document path = read_file path >>= unmarshal_document

  -- `NewClientWithFileCredStore`
  unfoldable pub new_client_with_file_cred_store : String → Result Store
  new_client_with_file_cred_store path = new_file_store path

  -- `NewImageVerifier`
  unfoldable pub new_image_verifier :
      Document → String → Bool → ℤ → String → Result NotationImageVerifier
  unfolding new_client_with_file_cred_store
  new_image_verifier policy trust_store plain_http max_attempts cred_store_path =
      new_verifier policy trust_store >>= λ v.
      new_client_with_file_cred_store cred_store_path >>= λ client. ok (record {
        verifier = v;
        repo_plain_http = plain_http;
        max_signature_attempts = max_attempts;
        client = client;
      })

  -- `VerifyImage`
  unfoldable pub verify_reference : NotationImageVerifier → String → Option GoError
  verify_reference iv image = elim (new_repository image) [
    | err e ↦ some e
    | ok repo ↦
        verify iv.verifier (set_client iv.client (set_plain_http iv.repo_plain_http repo)) image
          iv.max_signature_attempts
  ]

  -- Such a verifier behind the interface.
  abbrev pub image_verifier : NotationImageVerifier → ImageVerifier
  image_verifier iv = record { verify_image = verify_reference iv }
