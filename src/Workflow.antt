-- ===== src/Workflow.antt =====
-- Backend/application/workflow: the recovery graph. `State` has what the nodes pass on, `Nodes` the
-- first nodes of workflow_nodes.py, `Execute` the node that intervenes with the production
-- dispatcher (integrations/routing_dispatcher.py), `Graph` the last node and the control flow of
-- recovery_graph.py.
pub mod State
pub mod Nodes
pub mod Execute
pub mod Graph
pub mod Frame
pub mod Gates
pub mod Silence
pub mod SingleCall
pub mod Routes
pub mod Runs
