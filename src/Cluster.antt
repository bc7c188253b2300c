-- ===== src/Cluster.antt =====
-- The cluster: its nodes, its workloads, the traffic between them, and the public edge.
pub mod Names
pub mod GpuNodes
pub mod Workload
pub mod Vllm
pub mod Scheduling
pub mod Policies
pub mod Fastapi
pub mod Nodes
pub mod Api
pub mod Edge
pub mod Addons
pub mod Placement
