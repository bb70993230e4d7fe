-- ===== src/Checksums.antt =====
-- scripts/download_hash.py: puts the checksums of new versions into a YAML file. The file is a
-- dictionary of its tables of checksums; downloads and the hash function are parameters.
pub mod Changes
pub mod Sums
pub mod Returns
mod Examples
use vagrant_portainer.Base.{
  String, Bool, true, false, Option, none, some, List, [], ◌∷◌, ◌==◌, if◌then◌else◌,
}
use vagrant_portainer.Base.Result.{Result, ok, raise, key_error, ◌>>=◌, fold_result}
use vagrant_portainer.Base.Dict.{Dict, lookup, put}
use vagrant_portainer.Base.Text.{◌⧺◌, starts_with}

-- A table by architecture and version, and the tables by name.
abbrev pub Table : Type 0
Table = Dict (Dict String)

abbrev pub Tables : Type 0
Tables = Dict Table

-- The file, `requests.get` with `raise_for_status`, and the hexadecimal SHA-256.
pub record Env : Type 0 where
  pub open_main_yaml : Result Tables
  pub fetch : String → Result String
  pub sha256 : String → String

abbrev pub architectures : List String
architectures = "arm" ∷ "arm64" ∷ "amd64" ∷ "ppc64le" ∷ []

abbrev pub downloads : List String
downloads = "kubelet" ∷ "kubectl" ∷ "kubeadm" ∷ []

abbrev pub checksum_name : String → String
checksum_name download = download ⧺ "_checksums"

-- A version with its "v".
unfoldable pub with_v : String → String
with_v version = if starts_with version "v" then version else "v" ⧺ version

abbrev pub url : String → String → String → String
url version arch download =
    "https://storage.googleapis.com/kubernetes-release/release/" ⧺ version ⧺ "/bin/linux/" ⧺ arch
    ⧺ "/" ⧺ download

abbrev pub or_key_error {ℓ} : {A : Type ℓ} → Option A → Result A
or_key_error none = raise key_error
or_key_error (some a) = ok a

-- `data[name][arch][version] = sum`
unfoldable pub set_sum : String → String → String → String → Tables → Result Tables
set_sum name arch version sum data' = do
  table ← or_key_error (lookup name data')
  versions ← or_key_error (lookup arch table)
  ok (put name (put arch (put version sum versions) table) data')

-- One round of the inner loop.
unfoldable pub add_sum : Env → String → String → Tables → String → Result Tables
unfolding set_sum
add_sum env download arch data' version = do
  content ← env.fetch (url (with_v version) arch download)
  set_sum (checksum_name download) arch (with_v version) (env.sha256 content) data'

unfoldable pub add_versions : Env → String → List String → Tables → String → Result Tables
add_versions env download versions data' arch =
    fold_result (add_sum env download arch) data' versions

unfoldable pub add_archs : Env → List String → Tables → String → Result Tables
add_archs env versions data' download =
    fold_result (add_versions env download versions) data' architectures

-- The new contents of the file, which is written at the end.
unfoldable pub download_hash : Env → List String → Result Tables
download_hash env versions = do
  data' ← env.open_main_yaml
  fold_result (add_archs env versions) data' downloads

-- What the program does: usage and the status 1, or the file written, or an exception before that.
pub data Run : Type 0 where
  usage : Run
  written : Tables → Run
  failed : Run

abbrev pub run_of : Result Tables → Run
run_of (ok data') = written data'
run_of (raise e) = failed

abbrev pub or_else : List String → List String → List String
or_else [] sys_argv = sys_argv
or_else (a ∷ as') sys_argv = a ∷ as'

abbrev pub main_with : Env → List String → Run
main_with env [] = usage
main_with env (a ∷ as') = run_of (download_hash env (a ∷ as'))

-- `main(argv)`, where `sys_argv` are the arguments of the process
unfoldable pub main : Env → List String → List String → Run
main env argv sys_argv = main_with env (or_else argv sys_argv)
