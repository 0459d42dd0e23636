-- ===== src/Lib.antt =====
-- dankgo, the shared Go library of a desktop shell: its services modelled as executable functions,
-- with the theorems that make them correct.
--
-- Numbers are natural numbers unless they can be negative (Prelude/Int.antt). Text is the list of
-- its bytes (Prelude/Text.antt). A mutex becomes the atomicity of an operation, a goroutine a step
-- in a history, a returned error a constructor or `none`.
--
-- Files.antt: the package files, live listings of directories.
--   Files/Entry.antt     files/entry.go, the record of one directory entry.
--   Files/Sort.antt      files/sort.go: compareBy, compareName, sortEntries and insertSorted.
--                        slices.SortStableFunc is a stable insertion sort and
--                        slices.BinarySearchFunc the bisection of Go's documentation. Sort/Described
--                        tells the order by the fields of the entries.
--   Files/Filter.antt    files/filter.go: parseFilters, passes and filterView. strings.ToLower,
--                        strings.TrimSpace and filepath.Match are parameters. Filter/Shown has what
--                        the filters of a client show.
--   Files/Mime.antt      files/mime.go: which entries are enriched after a listing.
--   Files/Watch.antt     files/watch.go: a watch keeps the entries of a directory in order and
--                        sends its client numbered batches of differences. Watch/Batch has the
--                        state and the client, Watch/Diff the difference of two views,
--                        Watch/Publish the numbered stream, Watch/Flush and Watch/Enrich the
--                        operations that change a listing, Watch/Open the opening of a watch. What
--                        the file system returns is an argument of each operation, and so are the
--                        MIME sniffer, the thumbnailer and the icon index.
--                        Watch/Replay, Flushed, Enriched, Applied, Session, Live, Ordered and
--                        Numbered hold the proofs.
--   Files/Page.antt      files/list.go: pageOf and resumeAt, with Prelude/Decimal.antt for strconv.Itoa,
--                        strconv.Atoi and strings.Cut; Page/Follow has the client that follows the
--                        cursors, on fuel of one page more than there are entries.
--   Files/Pool.antt      files/pool.go: the worker pool; Pool/Run has its histories and proofs and
--                        Pool/Samples a pool that drains.
--   Files/Samples.antt   concrete listings and watches.
--
-- Ipc.antt: the package ipc, requests and events over a socket.
--   Ipc/Bus.antt         ipc/bus.go: subscribers and the delivery of events. Bus/Delivery and
--                        Bus/History hold the proofs.
--   Ipc/Mux.antt         ipc/mux.go: the routing of methods to handlers, with proofs in Mux/Routing.
--   Ipc/Server.antt      ipc/server.go: dispatch, handleSubscribe and handleUnsubscribe, with
--                        Ipc/Params.antt for ipc/params/params.go; proofs in Server/Topics.
--   Ipc/Samples.antt     a concrete bus, mux and request.
--
-- Files/Errors.antt, Files/Count.antt, Files/Mutate.antt: files/errors.go, count.go, mutate.go and
--   rename_linux.go. The results of f.ReadDir and of unix.Renameat2 are arguments, and so is what errors.Is
--   finds in an error of the system; Count/Samples has a directory.
--
-- Lyrics.antt: the package lyrics, the lookup of a track's lyrics.
--   Lyrics/Tier.antt     lyrics/types.go: lyrics, results and their sync tier; times are a parameter.
--   Lyrics/Race.antt     lyrics/lyrics.go: lookupProviders, bestFound, blockedAhead, upgradePending
--                        and leaderFound. Replies, the grace timer and the deadline are an explicit
--                        sequence of events. Race/Best, Settled, Patient and Grace hold the proofs.
--   Lyrics/Cached.antt   lyrics/cache.go and lookupProvider: one provider behind the cache, which maps
--                        a key to what its file reads as. What JSON makes of lyrics, whether a
--                        write succeeds, strings.TrimSpace, the rate limit and the provider's
--                        answer are arguments. Proofs in Cached/Replay.
--   Lyrics/Samples.antt  a concrete race.
--
-- Wayland.antt: the hand-written part of wayland/client.
--   Wayland/Wire.antt        wayland/client/request.go and event.go: words and strings.
--   Wayland/Connection.antt  wayland/client/context.go and event.go: objects, the queue of file
--                            descriptors, ReadMsg and the choice of GetDispatch. What the socket
--                            returns is an argument. Connection/Descriptors, Framing and Objects
--                            hold the proofs.
--   Wayland/Samples.antt     a concrete connection.
--
-- Trash (trash/trash.go). A path is the list of its names, innermost first, and the file system a function
--   from paths to nodes, without links that are followed; which calls the system refuses is a parameter, and
--   so are the environment, the formatted time and what os.ReadDir gives. net/url and path/filepath are
--   written out from their documentation.
--   Trash/Tree.antt      the file system and the calls of package os.
--   Trash/Escape.antt    pathEncode and pathDecode.
--   Trash/Paths.antt     paths as texts.
--   Trash/Place.antt     homeTrashDir to trashDirForPath.
--   Trash/Info.antt      the text of an info file, and how Restore and listOne read it.
--   Trash/Put.antt       uniqueName and Put, with proofs in Naming, Keeps, Safety and Outcome.
--   Trash/Restore.antt   Restore and listOne, with proofs in Stored, RoundTrip and Listed.
--   Trash/Many.antt      files/mutate.go: trashPaths, which calls Put for each path; Whole and Invariant have
--                        the proofs that a tree stays a tree.
--   Trash/Empty.antt     trash/mounts_linux.go, and List, Count and Empty over all trash directories, with
--                        proofs in Cleared and Emptied, and a run in Emptied/Samples.
--   Trash/Samples.antt   the witnesses, at a file on a mount.
--
-- Desktop (desktop/parser.go, mimeapps.go, mime.go, entries.go). Files come as their texts, maps are functions,
--   caches are as they were loaded last. White space is that of ASCII, and a line may be of any length.
--   Desktop/Groups.antt        parseGroups, splitList and parseBool.
--   Desktop/Associations.antt  associationsFromData, mergedAssociations and setDefaultAssociations.
--   Desktop/Chain.antt         readKV to mimeChain, with proofs in Walk and Reach. Its loop has as many rounds
--                              as the subclass table has pairs, and one.
--   Desktop/Cache.antt         loadMimeCache.
--   Desktop/Choice.antt        desktop entries, GetDefault, AppsForMime and HandlersForMime, with proofs in
--                              Candidates, Agreement, Offered and Chosen.
--   Desktop/Render.antt    desktop/mimeapps.go: managedGroups and renderMimeapps with flushMissing. A map is
--                          the list of its entries in the order of its keys, which is an argument. Fields,
--                          Reading, Agrees, Steps, Rounds and Completed follow what parseGroups reads from
--                          the lines that are out; Values, Fit, Text and RoundTrip read the file back;
--                          Extension, Unrelated, Verbatim and Kept say what stays.
--   Desktop/Search.antt    mimeappsSearchPaths and mimeappsWritePath, with filepath.Join as an argument.
--   Desktop/Written.antt   writeUserMimeapps, atomicWriteFile, setDefaultAssociations and mergedAssociations
--                          over a map of files; which calls succeed is an argument. Kept and Default hold
--                          the proofs, Samples a file with a comment.
--   Desktop/Chain/Samples.antt, Desktop/Choice/Samples.antt  the witnesses, at a cyclic table and at the texts
--                              of two files.
--
-- Shellapp (shellapp/pidfile.go). The runtime directory is a map from names to contents.
--   Shellapp/Pids.antt     writePIDFile, PIDs, sessionParentPID, firstChildPID and SessionPID.
--   Shellapp/Found.antt    the proofs; Shellapp/Samples.antt has two displays.
--
-- Loops over slices are structural recursion, so that no fuel is needed but for the digits of a
-- number, of which there are fewer than the number plus one; the binary search recurses on a bound
-- that its theorem shows to be enough, mimeChain for as many rounds as its theorem shows to be enough,
-- and uniqueName for the 99998 rounds of the source.
--
-- Not modelled: the goroutine that coalesces file system events, the collation keys and the file
-- system under a listing; the colour library (a port, in floating point), the concurrent map and the HTTP
-- middleware (copies of other projects), the generated Wayland bindings, the network clients of the
-- lyrics providers, and the glue around processes, D-Bus and logging. Left out for the size of the library:
-- the supervisor of a shell, the clipboard, the registry of error definitions, the totals of a directory
-- tree (files/size.go) and the parsers of lyrics files.
pub mod Desktop
pub mod Files
pub mod Ipc
pub mod Lyrics
pub mod Prelude
pub mod Shellapp
pub mod Trash
pub mod Wayland
