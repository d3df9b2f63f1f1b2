-- ===== src/Kube.antt =====
-- k8sclient/k8sclient.go: the networks that a pod asks for, and their delegates.
pub mod Cluster
pub mod Names
pub mod Annotation
pub mod Sources
pub mod Attachments
pub mod Defaults
pub mod Status
pub mod Conflicts
pub mod Labels
pub mod Grammar
pub mod Listing
pub mod Plain
pub mod Masters
pub mod Chosen
pub mod Handout
pub mod Refinement
