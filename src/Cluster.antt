-- ===== src/Cluster.antt =====
-- dcs/__init__.py: the view of the cluster that is read from the configuration store.
pub mod Member
pub mod View
