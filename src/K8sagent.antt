-- ===== src/K8sagent.antt =====
-- internal/k8sagent: the agent that runs each run in a pod.
pub mod Pool
