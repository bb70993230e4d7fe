-- ===== src/Lib.antt =====
-- Verification of the Python programs of the repository, first of all of the inventory builder,
-- contrib/inventory_builder/inventory.py. It turns command line arguments (addresses, ranges of
-- addresses, names with addresses, deletions) and the hosts of an earlier YAML document into a
-- table of hosts, gives the hosts roles, and writes the document.
--
-- Base: texts, lists, dictionaries in insertion order, and results with the exceptions that the
--   code raises. `Ensures P m` says that P holds of what `m` returns, where it returns.
-- Inventory/Types: the environment variables (lines 61 to 77) and the document. A null is kept
--   apart from an empty mapping and from an absent key, where the code tells them apart.
-- Inventory/Hosts: the class's build_hostnames, get_host_id, exists_ip, delete_host_by_ip. The
--   local variables of the loop are a record, since a round can read what an earlier one left.
--   Children: Addresses (lookup by address), Table (names and addresses are unique), Names (the
--   numbers of host names), Keeps (hosts stay), Fresh (a new inventory), Readable, Steps and Total
--   (the arguments that raise no error, and the tables that can be loaded again), Added, Deleted
--   and Repeated (what arguments do to the table).
-- Inventory/Ranges: range2ips with the version 4 part of Python's ipaddress; children
--   Expand and Canonical (which texts are addresses).
-- Inventory/Groups: ensure_required_groups, purge_invalid_hosts, add_host_to_group, the set_*
--   methods, and as `distribute` the part of the constructor that gives out the roles. Children:
--   Members, Purge, Entries (the hosts of `all` with their values), Nodes, Calico, Distributed,
--   Roles, Shaped, Shape (no error is raised), Required, Ensured.
-- Inventory/Session: the constructor as `init`, with parse_command, load_file, the print
--   commands and write_config. Standard output and files are a list of events; `World` holds the
--   settings, the earlier document and the files that `load` reads. Children: New, Atomic, Use
--   (one use of the program on an earlier document), Lifetime (a sequence of uses, each on the
--   file that the one before it wrote: what yaml.load gives is taken to be what yaml.dump was
--   given), Additions, Deletions, Repeated, Files and Loaded (the command `load`), Examples.
-- Inventory/Environment: get_var_as_bool, the numbers of the shell variables, and main. A negative
--   number, which slices lists from their end, ends the model. Children: Read, Examples.
-- Inventory/Examples: runs of the model, and the theorems at concrete inputs.
--
-- Loops are structural recursion on the lists that the code iterates over (`fold_result`), so no
-- fuel is needed. The numbers of the settings are natural numbers. A document always has the key
-- `hosts` in `all` where it has `all`; dictionaries keep insertion order, and a group's variables
-- other than `hosts` and `children` are left out. Of Python's ipaddress, version 6 is a function
-- of the settings; so is the name that a host gives to `hostname -s`.
-- The lines of `debug`, and the text of an error that build_hostnames prints before it exits, are
-- left out. To write the file is an event that does not fail: an error of open or of yaml.dump in
-- write_config, which can leave the file empty, is not modelled.
--
-- Kube: library/kube.py, the Ansible module that runs kubectl:
--   KubeManager with its methods, and main. An action takes the commands run so far and gives back
--   them with its own; the reply to a command may depend on all commands before it, and is a
--   parameter (run_command of AnsibleModule), as is the search for the program. Children: Commands
--   (KubeManager up to `_execute`), Relation (what a run may do) with Looked and Runs, Scope (where
--   commands apply), Present, Answered (no command fails), Examples.
--
-- Cleanup: scripts/openstack-cleanup/main.py, which deletes old resources of a cloud, with its two
--   handlers of conflicts. The cloud is a parameter. Children: Items and Allowed (which calls may be
--   made, for the items of one kind and in a run), Made and Complete (which are made where nothing
--   fails), Examples.
--
-- Aws: contrib/aws_inventory/kubespray-aws-inventory.py, an inventory from the tags of instances.
--   The search for instances is a parameter. Children: Listed (which hosts are listed), Decided
--   (when the inventory is made), Examples.
--
-- Terraform: contrib/terraform/terraform.py, an inventory from the state files of Terraform.
--   Json: the values of the files. Parse: _parse_prefix, parse_attr_list, parse_dict, parse_list,
--   parse_bool; Attributes has their round trip. Convert: convert_to_v3_structure; its child Total
--   says what it converts. Fields: the parts of the functions on resources; Hosts: metal_device,
--   openstack_floating_ips, openstack_host with its decorator; its child Kubespray is about groups.
--   Resources: tfstates and iterresources, with `Env`, what the program takes from outside. Queries:
--   query_host, query_list, query_hostfile; children Groups and Vars. Program: iterhosts, iterips,
--   iter_host_ips and main, where generators are lists, so of several errors another one may be the
--   first; children Floating and Metal.
--   Not modelled: _clean_dc, which nothing calls, and the argument parser.
--
-- Checksums: scripts/download_hash.py, which puts the checksums of new versions of Kubernetes into a
--   YAML file. The file, the download and the hash are parameters. Children: Changes, Sums (which
--   checksums change), Returns (when the file is written), Examples.
--
-- Branches: scripts/gitlab-branch-cleanup/main.py, which deletes old branches of a project. The
--   server, the clock and the reading of dates are parameters; the argument parser is left out, and
--   the age is not negative. Children: Deleted (which branches are deleted), Finished (a run without
--   an exception), Examples.
--
-- Report: tests/scripts/md-table/main.py, the table of what the test files cover: Data's set and
--   exists, and the loop over the files. The database, pydblite, is a record of operations
--   (`Pydblite`) with the laws of its documentation (`IsPydblite`); the reading of YAML is a
--   parameter. Rendered: the sorted names that the template gets, and the program. Not modelled: the
--   template table.md.j2, which makes the text of the table, and markdown, which nothing calls.
--   Children: Covered (what `exists` says), Readable (when the files load), Rendered, Printed (all
--   that the template gets), Examples, where a list is such a database.
--
-- Not modelled: setup.py and contrib/inventory_builder/setup.py, which only call setuptools, the unit
--   tests, and the roles, which are YAML and templates.
pub mod Aws
pub mod Base
pub mod Branches
pub mod Checksums
pub mod Cleanup
pub mod Inventory
pub mod Kube
pub mod Report
pub mod Terraform
