-- ===== src/Lib.antt =====
-- PrivateDeploy is a desktop client that deploys proxy nodes on cloud providers and drives a
-- sing-box kernel through them. This library models the logic of its TypeScript frontend
-- (frontend/src); the Go backend and the operating system are reached through a generated bridge
-- and are parameters here.
--
-- How the parts interact. The cloud store lists the provider's instances, keeps the measurements of
-- each node (history), gives each node a subscription under an id derived from the instance, and
-- routes the user's profile through all nodes (smart routing). The kernel store writes the profile's
-- configuration, starts the kernel with retries and repairs (start runner), follows its process
-- (lifecycle) and keeps the map of proxies that the kernel offers in step with the nodes (proxy
-- groups). Calls to the provider go through retries with backoff. The lists of subscriptions, profiles
-- and tasks are saved to files through debounced functions.
--
-- Which file models what.
--   Base and its children: Boolean tests, lists measured by the native numbers, texts as JavaScript
--     treats them, objects with text keys in the order of insertion (Dict), and async functions as
--     state transformers that return or throw (Calls: Outcome and Action with do blocks).
--   Kernel/StartRunner: frontend/src/stores/kernelApiStartRunner.ts. What it calls is the record
--     StartDeps over an abstract world; the loop is recursion on the rounds left, five of them.
--   Kernel/ProxyGroups: frontend/src/stores/kernelApiProxyGroups.ts on a Dict of CoreApiProxy.
--   Kernel/Machine and Kernel/Lifecycle: frontend/src/stores/kernelApiLifecycle.ts. The refs of the
--     store are the record Core, the rest is an abstract world, and the calls are the record
--     LifecycleDeps (Machine); the handlers stand in Lifecycle. An await runs
--     the call it waits for at once: what other handlers do meanwhile is part of that call. Quiet
--     states which calls leave the store's own refs alone.
--   Kernel/Runtime: the pruning of missing subscriptions and the allocation of ports in
--     frontend/src/stores/kernelApiRuntime.ts; ten attempts, as there.
--   Cloud/Address: isPublicIPv4 and isPublicIPv4Address of stores/cloud/helpers.ts,
--     stores/kernelApiProxyGroups.ts and views/CloudView/cloudNodeDisplay.ts (below frontend/src).
--     Number(text) of the language is Cloud/Address/Number, with exact values.
--   Cloud/History: frontend/src/stores/cloud/history.ts. Array.sort is a stable insertion sort. The
--     file's reading, parsing and normalisation is the parameter read_history.
--   Cloud/Ids: the ids and patterns of stores/cloud/helpers.ts and stores/cloud/constants.ts.
--   Cloud/Nodes: the type of nodes in frontend/src/types/cloud.d.ts and what stores/cloud/helpers.ts
--     reads off a node.
--   Cloud/ManualImport: frontend/src/stores/cloud/manualImport.ts: the checks and the node of an input
--     (Types), the store and its creation of nodes (Store), and adding and updating (Handlers). The
--     other children prove things of one of these.
--   Cloud/SmartRouting: frontend/src/stores/cloud/smartRouting.ts: the outbounds (SmartRouting), their
--     collection and making (Routes), the rules, the final outbound and the whole (Apply), and the
--     listeners for the load balancer (Balance).
--     A profile is changed in place there and returned here.
--   Cloud/Subscription: frontend/src/stores/cloud/subscriptionApply.ts: the content of a node's file
--     (Payload), the subscription record and its managed pattern (Record), the references in a profile
--     (Profiles) and the health of the protocols (Health), each on the values that it reads; the stores
--     and calls (Calls), editProfile of frontend/src/stores/profiles.ts for several profiles at once
--     with its debounced save and Promise.all (Edits), and the handlers that ensure and remove a
--     subscription (Apply), move it (Move),
--     take a probe's result (Probe), and apply one node to a profile (ApplyNode), which may be the
--     default one of frontend/src/constant/profile.ts (Defaults), or all nodes (ApplyAll). The other
--     children prove things of these.
--   Stores/Lists: what frontend/src/stores/subscribes.ts, profiles.ts and rulesets.ts do alike to the
--     lists that they save; Stores/Tasks: frontend/src/stores/scheduledtasks.ts, where the constructor
--     of Cron is a parameter that may refuse a pattern.
--   Utils/Debounce: debounce of frontend/src/utils/others.ts as a step relation.
--   Utils/ErrorRecovery: frontend/src/utils/errorRecovery.ts; the loop is recursion on the attempts
--     left, with a step relation as its specification (Runs).
--   Cloud/InstanceSync: the list of instances in refreshInstances of stores/cloud/instanceSync.ts,
--     and buildConnectivityProbe (InstanceSync/Probe). Sets of ids are lists.
--   Cloud/LoadBalance: frontend/src/stores/cloud/loadBalance.ts with the hooks of
--     frontend/src/stores/kernelApi.ts, which are counted.
--
-- Bounds. Times, ports, delays and counters are natural numbers of milliseconds or units; differences
-- of times that the code takes as negative are zero here where only a bound from above is tested.
-- Every loop is structural or has the bound that the source gives it. The one fuel is that of show in
-- Base/Decimal, the decimal text of a number: it is one above the number, which each division by ten
-- shortens, and any larger fuel gives the same digits (show_digits-fuel).
--
-- Not modelled: log lines and translations; the bridge's own code, the Vue views and components, the
-- Go backend and the mobile client; the generator of the kernel's configuration; plugins, the
-- updates of subscriptions and rule sets over the network, and the runs of scheduled tasks.
pub mod Base
pub mod Kernel
pub mod Cloud
pub mod Utils
pub mod Stores
