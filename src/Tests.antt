-- ===== src/Tests.antt =====
-- Runs of the model on concrete inputs, over a small world of libraries.
mod Toy
mod HelmRuns
mod RawRuns
mod InstanceRuns
mod HandlerRuns
mod FileRuns
mod TickRuns
mod GitRuns
mod ServerRuns
mod OperatorRuns
mod SystemRuns
mod PoolRuns
mod ClusterRuns
mod StoreRuns
