-- ===== src/Kube.antt =====
-- The Kubernetes objects that the program creates, reads and changes, with the fields it uses.
pub mod Pod
pub mod Objects
pub mod Running
