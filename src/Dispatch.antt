-- ===== src/Dispatch.antt =====
-- scm/main/adapter/src/core/dispatch: jobs that route a request to a handler, and the ingresses over them.
pub mod Interface
pub mod Stages
pub mod HttpJob
pub mod GrpcJob
