-- ===== src/Checksums/Examples.antt =====
-- scripts/download_hash.py: a file with one old checksum, and the hash of a text written out.
use vagrant_portainer.Base.{◌≡◌, refl, some, [], ◌∷◌}
use vagrant_portainer.Base.Result.{ok, raise, os_error, fold_result}
use vagrant_portainer.Base.Dict.{lookup, put}
use vagrant_portainer.Base.Text.{◌⧺◌, starts_with}
use vagrant_portainer.Checksums.{
  Table, Tables, Env, with_v, set_sum, add_sum, add_versions, add_archs, download_hash, usage,
  written, failed, main,
}
use vagrant_portainer.Checksums.Sums.{sum_for, is_asked, download_hash-Changed}
use vagrant_portainer.Checksums.Changes.{sum_in, Changed}
use vagrant_portainer.Checksums.Returns.{main-IsWritten}

abbrev old_table : Table
old_table = ("arm", []) ∷ ("arm64", []) ∷ ("amd64", ("v1.17.0", "old") ∷ []) ∷ ("ppc64le", []) ∷ []

abbrev old_file : Tables
old_file =
    ("kubelet_checksums", old_table)
    ∷ ("kubectl_checksums", old_table)
    ∷ ("kubeadm_checksums", old_table)
    ∷ []

abbrev web : Env
web = record {
  open_main_yaml = ok old_file;
  fetch = λ url. ok url;
  sha256 = λ content. "sha256:" ⧺ content;
}

abbrev new_file : Tables
new_file = elim (download_hash web ("1.18.1" ∷ [])) [ ok d ↦ d | raise e ↦ [] ]

amd64_kubelet :
    sum_in new_file "kubelet_checksums" "amd64" "v1.18.1"
    ≡ some
        "sha256:https://storage.googleapis.com/kubernetes-release/release/v1.18.1/bin/linux/amd64/kubelet"
unfolding download_hash add_archs add_versions add_sum set_sum with_v fold_result lookup put
    starts_with
amd64_kubelet = refl

old_sum : sum_in new_file "kubelet_checksums" "amd64" "v1.17.0" ≡ some "old"
unfolding download_hash add_archs add_versions add_sum set_sum with_v fold_result lookup put
    starts_with
old_sum = refl

no_arguments : main web [] [] ≡ usage
unfolding main
no_arguments = refl

download_hash-Changed_example : Changed (sum_for web) (is_asked ("1.18.1" ∷ [])) old_file new_file
unfolding download_hash add_archs add_versions add_sum set_sum with_v fold_result lookup put
    starts_with
download_hash-Changed_example =
    download_hash-Changed web ("1.18.1" ∷ []) old_file new_file refl refl

unreachable :
    main
      (record { open_main_yaml = ok old_file; fetch = λ url. raise os_error; sha256 = λ c. c })
      ("v1" ∷ [])
      []
    ≡ failed
unfolding main download_hash add_archs add_versions add_sum fold_result
unreachable = refl

main-IsWritten_example :
    (d : Tables) × (main web ("1.18.1" ∷ []) [] ≡ written d)
    × (download_hash web ("1.18.1" ∷ []) ≡ ok d)
unfolding lookup
main-IsWritten_example = main-IsWritten web "1.18.1" [] [] old_file refl refl refl
