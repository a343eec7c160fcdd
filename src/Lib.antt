-- ===== src/Lib.antt =====
-- domudns is a DNS server for a home network: authoritative zones with split-horizon views, a
-- filter with block lists, a cache, a forwarder, and an HTTP API over a store of JSON files. This
-- library models the parts below; each file opens with the code that it is about.
--
-- Prelude, Text, Assoc, Net and Mdns hold what the parts share. A text is the list of its bytes,
-- a Go map an association list with one entry for each key (Assoc), a nil pointer or an error
-- without further use is `none`. Net has addresses and networks; net.ParseIP, net.ParseCIDR and
-- net.SplitHostPort are parameters. Mdns has the messages of the miekg/dns library as data; its
-- functions are fields of the interface `Mdns`, with the documented behaviour that the server
-- relies on as laws.
--
-- Dns (internal/dns): CharClass and Label are the grammar of names, Record and Zone the stored
-- data with the serial numbers, Uri the check of URI values, Validator the functions ValidateRecord
-- and ValidateZone, Reverse the names of reverse lookups.
--
-- Zones (internal/dnsserver/zones.go): the zone manager. Zones has Load, FindZone and findByName,
-- Zones.Match has matchZoneRecords with its loop as a fold over a record of the loop's variables,
-- Zones.Chain has the chasing of CNAME records in a zone, Zones.Rr has BuildRR and recordToRR,
-- Zones.Response has GenerateResponse and FindFWDServers.
--
-- Blocklist (internal/dnsserver/blocklist.go): the block list manager. Its flat sets are rebuilt by
-- folds over the tables of sources; Blocklist.Flat says what they hold, Blocklist.Sources what
-- IsBlocked answers, Blocklist.Updates what Load, ReloadWhitelist and ApplyURLDomains keep.
--
-- Feeds (internal/blocklist/parser.go, merge.go): the parser of the lists that a block list is made of,
-- and the merge of blocked and allowed names.
--
-- Access (internal/dnsserver/acl.go, clientgroups.go, splithorizon.go, rebinding.go): the access
-- control, the block list categories and the view of a client, and the filter of answers that point
-- inside. Access.Networks relates the two parsers of network lists, Access.Clients says which view and
-- group a client gets and what a view can see, Access.Ranges which addresses are internal.
--
-- RateLimit (internal/dnsserver/ratelimit.go): the table of clients with their token buckets;
-- RateLimit.Tracked bounds it and keeps clients apart.
--
-- FileStore (internal/filestore/zones.go, atomic.go): the zones as files of a directory.
-- FileStore.Names is about the names of the files, Keys about reading after a write, Records about
-- changes of single records, Runs about any sequence of operations.
--
-- Cache (internal/dnsserver/cache.go): the map and the heap of cached responses. Cache.Lru is the
-- interface of container/heap, Invariant and Runs keep map and heap together, Answers says what is
-- returned and what is evicted.
--
-- Ddns (internal/dnsserver/update.go): dynamic updates over an interface of the store. Ddns.Outcome is
-- about who may update, Frame about what an update leaves alone, Upsert about what it replaces, and
-- OnFiles fills the interface with the store of files.
--
-- Forward (internal/dnsserver/forwarder.go, dnssec.go): conditional forwarding (Forward.Rules), the
-- choice of an upstream server (Forward.Servers), and DNSSEC as a stub resolver has it (Forward.Dnssec).
--
-- Handler (internal/dnsserver/handler.go, pipeline_*.go): how a query is answered, which joins Access,
-- RateLimit, Blocklist, Zones, Cache and Forward. Handler.State has the settings, the parts that change
-- and the libraries, Local the phase of the own zones, Serve the order of guards and phases.
-- Handler.Guards says what comes before what, Gates what may reach a client, Chains what a CNAME chain
-- adds. The loop over a chain runs on max_cname_chain_depth, the program's own bound.
--
-- Axfr (internal/dnsserver/axfr.go): who may transfer a zone, and the messages of a transfer. The loop
-- over the chunks runs on fuel, for which the number of records is enough (Axfr.Frames).
--
-- Dhcp (internal/dhcp/sync.go, types.go): the records of leases. Dhcp.Hostnames is about the names,
-- where the length of a text is fuel enough for the loop over its hyphens, Dhcp.Passes about a pass.
--
-- QueryLog (internal/querylog/ringbuffer.go, types.go): the ring buffer of the query log, as a slice
-- with a write position; QueryLog.Ring relates it to the sequence of all logged entries, QueryLog.Pages
-- has the pages of a query and the batches of Drain, QueryLog.Stats the statistics with their
-- insertion sort.
--
-- Loops over lists are structural recursion. The loop that follows a CNAME chain recurses on the
-- rounds left, of which there are 8 as in the code; running out of them is one of the code's own
-- exits. Integers of the type int are those of Prelude.Int, and a conversion to an
-- unsigned type of w bits is written as a remainder modulo 2 ^ w. The clock is an argument.
--
-- Not modelled: the parsers of lease files, the cluster, the other data of the file store, the HTTP
-- API and the certificates, whose files no module names; and, in what is modelled, locks (each
-- operation is one step), logging, HTTP and network input, and the text of error messages.
pub mod Prelude
pub mod Text
pub mod Assoc
pub mod Net
pub mod Mdns
pub mod Dns
pub mod Zones
pub mod Tests
pub mod QueryLog
pub mod Blocklist
pub mod Access
pub mod RateLimit
pub mod Feeds
pub mod FileStore
pub mod Cache
pub mod Ddns
pub mod Forward
pub mod Handler
pub mod Axfr
pub mod Dhcp
