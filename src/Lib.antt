-- ===== src/Lib.antt =====
-- Ghost Node: a VPN platform with a control plane (cmd/control-plane), a node agent
-- (cmd/node-agent) and the tool ghostctl (cmd/ghostctl) that gives a blocked node a new address.
--
-- The parts and the files that model them:
--
-- * Provisioner (internal/provisioner). Rotator.rotate draws addresses from a Provider until one
--   passes the probe, asking and feeding the store of burned addresses, and then runs the post
--   actions. Provisioner/Rotator models rotator.go (Rotate, with its loop as draws and round),
--   Provisioner/Burned burned.go (the store: add, burned, save, load, listed), Provisioner/Probe
--   probe.go (probe_tcp), and Provisioner/Address the part of net/netip that burned.go calls.
--   Provisioner/Oracle models oracle.go, the only Provider (describe, allocate, wait_released,
--   wait_assigned, rotate_ip), over the calls of ociclient, whose types are in
--   Provisioner/Ociclient, and Provisioner/Ociclient/File models ocifile.go (load_from_file),
--   the credentials of a profile, and Provisioner/Ociclient/Requests the requests of client.go
--   (do_, do_once). Provisioner/PostActions models the post actions of actions.go
--   (dns_apply, control_plane_apply, ssh_config_apply), Provisioner/SshConfig its
--   setSSHHostName on the lines of an ssh config, with what ssh reads of them in
--   Provisioner/SshConfig/Ssh, and Provisioner/Cloudflare the client of
--   dns/cloudflare.go (zone_for, find_record, upsert, do_). The world outside (cloud, network,
--   clock, files) is a state that is a parameter, with functions that say how it answers.
-- * Ghostctl (cmd/ghostctl). Ghostctl/Config models config.go (load_config, validate, node) and
--   the selection of targets; Ghostctl/Commands models cmdRotate of main.go: it confirms, loads
--   the store of burned addresses, runs Rotator.rotate on every target with the post actions,
--   and saves the store, or describes the instances for a dry run (dry_run_rotate).
--   Ghostctl/Commands/Flags models parseFlags.
-- * Transport (internal/transport). Transport models manager.go and interface.go, the supervisor
--   of the transport engines of a node, where check_and_failover is one tick of its health loop;
--   Transport/Xray models xray/provider.go, the process of one engine, as steps that interleave
--   (start, stop, the goroutine that reaps, exits), and its waitReady.
-- * Agent (internal/agent). Agent/Processes models process_manager.go as atomic events; a list
--   of events is an interleaving of calls, goroutines and exits. Agent/Configs models
--   config_manager.go (apply, apply_one), which writes the files of the engines and restarts
--   them through the process manager; what happens while Stop waits is an argument.
-- * ControlPlane (internal/models, internal/auth, internal/service). ControlPlane/Models holds
--   the rows of the database, ControlPlane/Jwt models jwt.go, ControlPlane/Auth auth_service.go
--   (register, login, refresh, logout), ControlPlane/Users user_service.go, ControlPlane/Traffic
--   traffic_service.go, and ControlPlane/Nodes node_service.go. ControlPlane/Gate models what
--   stands before the handlers: the routes of internal/handler/router.go, the rate limiter of
--   ratelimit.go and the middleware of internal/auth/middleware.go. ControlPlane/Fleet models
--   the gRPC calls of the agents (internal/grpc/server.go) on the table of nodes, with the
--   queries of internal/repository/node_repo.go that they use. The database, Redis, golang-jwt,
--   uuid, the hashes, floating-point numbers and sort.Slice are parameters, records of
--   functions; a theorem names the laws of them that it uses.
--
-- Prelude holds the names of the library that the development uses, Boolean tests on numbers,
-- error results, signed integers, association lists for Go's maps, and list lemmas. Texts holds
-- the functions of Go's package strings on lists of code points (fields, trim_space, split_lines,
-- equal_fold), for the code that takes texts apart.
--
-- Go's maps are association lists in the order in which `range` visits them, which Go leaves
-- open: a theorem for all lists is one for all orders. Errors are kept as values, texts that are
-- only formatted for a reader as the data that they show. A loop with a bound is recursion on
-- the number of rounds left (the draws of a rotation, the dials of a probe). The polling loops
-- of Provisioner/Oracle wait for a deadline, so they take a number of rounds as fuel;
-- Provisioner/Oracle/Ending says how many are enough. The loops of waitReady and parseFlags take
-- fuel too; Transport/Xray/Readiness and Ghostctl/Commands/Flags say how much is enough.
--
-- An operation of the control plane that asks for the time more than once runs at one instant
-- here.
--
-- Not modelled: log messages and metrics, the generated gRPC code and the start and stop of the
-- gRPC server, the HTTP handlers, which bind requests to the services, the repositories other
-- than that of the nodes, which are queries of the library gorm, the signatures of ociclient,
-- the configuration that xray reads, the agent's gRPC loops, and the commands of ghostctl that
-- only print.
pub mod Prelude
pub mod Provisioner
pub mod Transport
pub mod Agent
pub mod ControlPlane
pub mod Texts
pub mod Ghostctl
