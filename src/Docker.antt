-- ===== src/Docker.antt =====
-- runtime/docker.py: the cluster of Docker containers. Docker is what answers the calls made so far;
-- the parts of a network that `ipaddress` reads, and the paths that `glob` finds, are arguments.
pub mod Shares
pub mod Params
pub mod Creation
pub mod Kwargs
pub mod Subnets
pub mod Networks
pub mod Containers
