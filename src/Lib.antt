-- ===== src/Lib.antt =====
-- A verification library for cros-dev-util, the Chromium OS developer utilities.
--
-- The repository holds independent tools. Six of them are modelled here:
--
-- * nebraska/nebraska.py, an Omaha server that answers the update requests of a device. A POST goes
--   through NebraskaHandler.do_POST, which parses the request, looks for a payload for each app in
--   the index of update or install payloads, and sends the response; the request joins a log that a
--   GET of requestlog returns. The files are Nebraska/Xml (elements), Nebraska/Request (Request and
--   AppRequest, with ParseRequest), Nebraska/AppIndex (AppIndex: _Scan and Find, MatchAppData),
--   Nebraska/Properties (NebraskaProperties, ResponseProperties, QueryDictToDict),
--   Nebraska/Response (Response and AppResponse) and Nebraska/Server (do_POST, do_GET, Nebraska).
-- * host/netboot_firmware_settings.py, which packs the netboot settings into an area of a firmware
--   image: Netboot, from Image and Settings to main. Netboot/Reader has a reader of the packed block,
--   stated from the format, and Netboot/Made says each setting in terms of the options.
-- * gs_cache, a server that hands out files of Google Storage and of the archives there.
--   GsCache/TarList is tarfile_utils.py, which finds the members of an archive in the listing of tar;
--   GsCache/TarLine and GsCache/TarLayout are about its lines and its archives. GsCache/Answers has
--   the requests, exceptions and checks of gs_archive_server.py with _to_cherrypy_error,
--   GsCache/Paths what it uses of os.path, GsCache/Caching its _CachingServer, and GsCache/Server the
--   handlers of GsArchiveServer. The handlers ask each other over HTTP through a caching proxy:
--   GsCache/Archives, GsCache/Extraction, GsCache/Decompression, GsCache/Chain and GsCache/Chunks
--   follow a file of a compressed archive on this way, and GsCache/Refusals is about what the handlers
--   raise.
-- * contrib/findmissing, the robot that looks for fixes that kernel branches are missing.
--   FindMissing/Subsequent is get_subsequent_fixes of missing.py; FindMissing/Fixes has the
--   statements of cloudsql_interface.py on the fixes tables; in FindMissing/Fixes are get_change_id
--   (ChangeId), the database, its queries and the services (World), the creation of changes
--   (Create; Hindered is about the fixes without one) and the update of the rows (Update), all of
--   missing.py, and get_cherrypick_status of git_interface.py.
-- * contrib/variant/new_variant.py, which creates a variant of a reference board in steps that it can
--   pause and continue. NewVariant/State is variant_status.py with the yaml file and the calls of
--   the program; NewVariant/Boards the modules hatch.py, puff.py, ambassador.py, trembyle.py,
--   volteer.py and waddledee.py; NewVariant/Build runs processes and records commits;
--   NewVariant/Scripts, NewVariant/Upload and NewVariant/Depend are the steps;
--   NewVariant/Kconfig is kconfig.py;
--   NewVariant/Run the flags, get_status, perform_step, move_to_next_step and main. NewVariant/Typing
--   is a check of a board's steps that runs none of them, check_board: a context says which entries
--   of status.commits have a git commit and which have a CL. The other files of NewVariant relate
--   the steps to that check, from single steps (Contracts to Amends) over the table (Steps) and the
--   loop (Rounds, and Soundness, where the loop is a walk over the steps that are left) to runs that
--   continue each other (Resume, Sessions).
-- * contrib/fromupstream.py, which picks patches from upstream into a git repository.
--   FromUpstream/Session has its arguments, its git commands and what it meets outside,
--   FromUpstream/Pick the handlers of the locations, FromUpstream/Run the pause on conflicts, the
--   commit messages and the loop over the locations, and FromUpstream/Main the lines of the messages
--   and main. Frames says which git commands change the branch; Handlers and Mails are about the
--   handlers, Conflicts, Commits and Titles about the rest of the loop's body.
--
-- Base has what they share: lists over the native numbers, Python's exceptions as values
-- (Results), dictionaries as association lists (Dict), text and integers.
--
-- A function of new_variant.py is an action: it takes the machine (status, yaml file, calls so far)
-- to what it returns or raises and the machine behind it.
--
-- State is passed explicitly: the server is a record with its indexes and log, the database with
-- the calls of Gerrit is the record World. A function that may raise returns a Result. The
-- payload that Find has matched is identified by its place in the index, as Python compares
-- objects. A table is the list of its rows, and a query without ORDER BY answers in their order.
-- Python 2 strings of the netboot tool are lists of bytes.
--
-- A function of fromupstream.py takes the session (arguments, calls so far) to how it ends and the
-- session behind it. A generator is the list of what it yields with the exception that ends it, if
-- one does.
--
-- Fuel: the loops of get_subsequent_fixes and of new_variant.py have it, and the reading of a file in
-- parts, which a file of k characters ends after k + 1 reads at most. The loop over the steps of
-- a board needs one more than their number. The loop of get_subsequent_fixes gets two more than the
-- number of rows of the table: each iteration that finds a new sha makes the rows fewer whose fixing
-- sha is not known yet, and two more iterations end the loop. The loop of fromupstream.py that waits
-- for a commit has as many turns as the user restarts the job, and then the job is killed.
--
-- Parameters: the parsers of XML, JSON and query strings, the printing of XML (which may fail),
-- fmap_decode, inet_pton, the answers of MySQL (rejected statements), of the git commands and of
-- Gerrit, the clock, and for new_variant.py the record Tools: processes, files, git, cros_workon,
-- Gerrit, HTTP and the modules of the boards, each of which may answer differently behind each
-- call. For gs_cache it is the record Outside: requests, urlparse, processes and gs of chromite.
-- For fromupstream.py its record Outside holds git and the web, which answer behind the calls so
-- far, and the regular expressions.
--
-- Not modelled: the start and stop of the server's thread and its files, command lines, logging,
-- the format of the yaml file, argparse, database transactions, the UNION of one query over several
-- tables, and the other tools of the repository: the devserver (CherryPy handlers over the file
-- system and Google Storage), the fake Omaha server, the telemetry and the log metrics of gs_cache,
-- and the shell, C and Go programs.
pub mod Base
pub mod FindMissing
pub mod FromUpstream
pub mod GsCache
pub mod Nebraska
pub mod Netboot
pub mod NewVariant
