-- ===== src/Gitops/GitHub.antt =====
-- internal/gitops/github.go: the client that authors pull requests, as scripts of the calls of
-- go-github, ghinstallation and os. %q, hex of SHA-256 and unicode.ToLower are parameters.
pub mod Refusals
pub mod Propose
pub mod Settle
pub mod Scope
pub mod Proposal
pub mod Connected
pub mod Outcomes
use snowdeploy.Base.{
  ℕ, Text, lit, ◌==◌, is_empty, contains, take, itoa, eqb, any, map, Bool, true, false, not, ◌&&◌,
  ◌||◌, List, [], ◌∷◌, ◌++◌, Option, none, some, Error, errors_new, wrap, Result, ok, err,
  if◌then◌else◌,
}
use snowdeploy.Base.Int.{ℤ, pos, eqb_ℤ}
use snowdeploy.Revision.{trim_suffix}
use snowdeploy.Script.{Language, Script, ret, ◌>>=◌, ◌>>◌, query}
use snowdeploy.Gitops.Names.{join_path, check_name}
use snowdeploy.Gitops.Mirror.{credential_unavailable}

-- What errors.As finds: an AcceptedError, or an ErrorResponse with the status of its response, if
-- it has one, its message, and the messages of its errors.
pub data Kind : Type 0 where
  accepted other : Kind
  response : Option ℕ → Text → List Text → Kind

pub record ApiError : Type 0 where
  pub error : Error
  pub kind : Kind

-- GetContents: the file's blob, no file, or an error with the status of the response, if any.
pub data Contents : Type 0 where
  blob : Text → Contents
  no_file : Contents
  unread : Option ℕ → Error → Contents

-- What PullRequests.Merge answers.
pub record MergeResult : Type 0 where
  pub merged : Bool
  pub sha : Text
  pub message : Text

-- What PullRequests.Create answers.
pub data Opened : Type 0 where
  opened : ℕ → Opened
  unopened : ApiError → Opened

pub data Query : Type 0 where
  -- os.ReadFile of the key; ghinstallation.New with it; Transport.Token; github.NewClient
  read_key : Text → Query
  new_transport : Text → Query
  mint_token : Query
  new_client : Query
  -- Git and Repositories: a ref of the base, a branch at a commit, a file on a branch, a write of it
  get_ref : Text → Query
  create_ref : Text → Text → Query
  get_contents : Text → Text → Query
  create_file : Text → Text → Text → Text → Option Text → Query
  -- PullRequests and Issues: title, head, base and body of a new one; a head and a base to list
  create_pr : Text → Text → Text → Text → Query
  list_prs : Text → Text → Query
  update_branch : ℕ → Query
  merge_pr : ℕ → Text → Query
  create_comment : ℕ → Text → Query
  edit_pr : ℕ → Text → Query

abbrev pub Reply : Query → Type 0
Reply (read_key path) = Result Text
Reply (new_transport key) = Option Error
Reply mint_token = Result Text
Reply new_client = Option Error
Reply (get_ref ref) = Result Text
Reply (create_ref ref sha) = Option ApiError
Reply (get_contents path branch) = Contents
Reply (create_file path message content branch sha) = Option Error
Reply (create_pr title head base body) = Opened
Reply (list_prs head base) = Result (List ℕ)
Reply (update_branch n) = Option ApiError
Reply (merge_pr n method) = Result MergeResult
Reply (create_comment n body) = Option Error
Reply (edit_pr n state) = Option Error

abbrev pub github : Language
github = record { Query = Query; Reply = Reply }

pub record GitHubAppConfig : Type 0 where
  pub app_id : ℤ
  pub installation_id : ℤ
  pub key_path : Text
  pub owner : Text
  pub repo : Text
  pub manifest_dir : Text
  pub base_branch : Text
  pub base_url : Text

abbrev or_default : Text → Text → Text
or_default fallback t = if is_empty t then fallback else t

unfoldable pub new_github_app : GitHubAppConfig → Result GitHubAppConfig
new_github_app cfg =
    if eqb_ℤ cfg.app_id (pos 0)
    then err (errors_new (lit "github app id is required"))
    else if eqb_ℤ cfg.installation_id (pos 0)
    then err (errors_new (lit "github installation id is required"))
    else if is_empty cfg.key_path
    then err (errors_new (lit "github app key file is required"))
    else if is_empty cfg.owner
    then err (errors_new (lit "github owner is required"))
    else if is_empty cfg.repo
    then err (errors_new (lit "github repository is required"))
    else ok (record cfg {
      base_branch = or_default (lit "main") cfg.base_branch;
      manifest_dir = or_default (lit "deploy/manifests") cfg.manifest_dir;
    })

-- fmt.Errorf("%w…: %w") of ErrCredentialUnavailable and a cause.
abbrev pub unavailable : Text → Error → Error
unavailable between e = record {
  text = credential_unavailable.text ++ between ++ e.text;
  chain = credential_unavailable.chain ++ e.chain;
}

abbrev pub failed : Text → Error → Error
failed prefix e = wrap (prefix ++ lit ": " ++ e.text) e

module _ (a : GitHubAppConfig) where
  abbrev pub transport_made : Option Error → Option Error
  transport_made none = none
  transport_made (some e) = some (unavailable (lit ": ") e)

  abbrev pub transport_keyed : Result Text → Script github (Option Error)
  transport_keyed (err e) =
      ret (
        some
          (unavailable (lit ": cannot read " ++ a.key_path ++ lit " (secret store sealed?): ") e))
  transport_keyed (ok key) = do e ← query (new_transport key); ret (transport_made e)

  unfoldable pub transport : Script github (Option Error)
  transport = do key ← query (read_key a.key_path); transport_keyed key

  abbrev minted : Result Text → Result Text
  minted (ok token) = ok token
  minted (err e) = err (unavailable (lit ": mint installation token: ") e)

  abbrev token_over : Option Error → Script github (Result Text)
  token_over (some e) = ret (err e)
  token_over none = do t ← query mint_token; ret (minted t)

  unfoldable pub token : Script github (Result Text)
  unfolding transport
  token = do e ← transport; token_over e

  abbrev pub client_made : Option Error → Option Error
  client_made none = none
  client_made (some e) = some (failed (lit "build github client") e)

  abbrev pub client_over : Option Error → Script github (Option Error)
  client_over (some e) = ret (some e)
  client_over none = do e ← query new_client; ret (client_made e)

  unfoldable pub client : Script github (Option Error)
  unfolding transport
  client = do e ← transport; client_over e

  unfoldable pub manifest_path : Text → Text
  manifest_path service = join_path (a.manifest_dir ∷ (service ++ lit ".yaml") ∷ [])
