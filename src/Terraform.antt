-- ===== src/Terraform.antt =====
-- contrib/terraform/terraform.py: an inventory from the state files of Terraform.
pub mod Fields
pub mod Json
pub mod Parse
pub mod Convert
pub mod Hosts
pub mod Resources
pub mod Queries
pub mod Program
pub mod Attributes
mod Examples
