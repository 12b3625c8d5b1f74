-- ===== src/Examples.antt =====
-- Runs of the model on concrete inputs.
mod Exceptions
mod Contexts
mod Workers
mod Containers
mod Rpc
mod Calls
mod Timers
mod Spawns
mod Messages
mod Commands
mod Configs
mod Consumers
mod Servers
mod Virtual
mod Serializers
mod Pipelines
mod Leavings
mod Routes
mod Threads
mod Https
mod Extended
mod Polls
mod Websockets
mod Frames
mod Redactions
mod Retries
mod Providers
