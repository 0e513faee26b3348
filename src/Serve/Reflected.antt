-- ===== src/Serve/Reflected.antt =====
-- What the gRPC server that `serve` starts answers while reflection is on.
use edge_bootstrap.Dispatch.GrpcJob.{GrpcJob}
