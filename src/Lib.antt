-- ===== src/Lib.antt =====
-- Alpenglow is a Linux distribution. This library models the program that shows it in a browser, the
-- site of site/src, whose script mounts a terminal, starts the v86 emulator with the distribution's
-- kernel and initramfs, and joins the emulator's serial line to the terminal; and, of the distribution
-- itself, the package manager system/oil (what is installed, in which order and where), the installer
-- system/installer, which writes an image to a disk, and the policy of the kernel's control groups in
-- system/alpenglow-ctl.
--
-- The parts and their files.
--
-- * site/src/shell.js, the script of the page, is Shell. `Shell.State` has the state: the elements
--   that the script looks up (null is `none`), its variables (`buildId`, `emulator`, `term`,
--   `fitAddon`, `emulatorReady`, `useXterm`, `cmdline`), the registered listeners, the timers, and a log
--   of the calls into the browser, the terminal and the emulator, the latest first. Each function of the
--   script is a function on that state: `applyReleaseLink` is Shell.Release; `buildId`,
--   `buildIdPromise` and `asset` are Shell.BuildId; `setStatus` is Shell.Status;
--   `computeTerminalMetrics` and its two readers are Shell.Metrics; `applyTerminalScale`,
--   `mountTerminal` and `finishStatus` are Shell.Screen; `sendSerial` and `wireLegacyKeyboard` are
--   Shell.Keyboard; the body of the module, with the emulator's four listeners and the catch clause,
--   is Shell.Boot. What the script awaits cuts a function into parts: `mountTerminal` is
--   `mount_begin` before `await init()` and `mount_end` after it.
-- * The event loop is Shell.Events. An event is the settling of a promise that the script waits
--   for, a call of a listener, or the end of a timer; `step` runs what the script runs then, and
--   nothing if the script does not wait for it or the listener is not registered. `Reach` has the
--   states that a page comes to, for any events in any order; `run` takes the events as a list.
-- * site/src/App.tsx is Site.App, site/src/styles.ts is Site.Styles, site/src/document.ts is
--   Site.Document, site/src/build.ts is Site.Build and site/src/server.ts is Site.Server. The
--   server answers with what document.ts renders and with the files that build.ts has written, the
--   page loads the script, and the script looks up the elements of App.tsx.
-- * The language. Texts are lists of UTF-16 code units (Prelude.Strings); `encodeURIComponent` is
--   Uri, with a decoder in Uri.Decode; a promise that has settled is `Settled`. JavaScript numbers
--   are a type with the operations that the site applies to them (Double), whose laws (Double.Laws)
--   are laws of IEEE 754 doubles; Double.Fixed meets them with thousandths, and the tests run on it.
--
-- * system/oil/src/system/registry/mod.rs is Oil.Package (`PackageMetadata`, `PackageIndex`, `find`) and
--   Oil.Resolver (`resolve_install_order`, `visit_install_deps`). A hash map is an association list, a
--   hash set a list, a reference to a package its position in the index. Oil.Str has the methods of
--   `str` that the code calls, on code points.
-- * Of system/oil/src/system/registry/apk.rs, Oil.Index has the search of an archive for its index
--   (`parse_apkindex_archive`) and the removal of packages of the same name, and Oil.Parse the reading of
--   the text of an index (`parse_apkindex`), which gives the packages of Oil.Package.
-- * system/oil/src/system/extractor/apk.rs is Oil.Apk (`extract_tracked` with the signature and its
--   key), Oil.Streams (`find_gzip_stream_starts`, `split_gzip_streams`) and Oil.Extract (`untar` and what
--   it calls). A package comes in three streams of gzip; the first has its signature, the third its
--   payload. The calls on the disk are a log, the latest first; which of them fail is a function
--   of the calls before. The lists of files and directories have the latest first, too.
-- * `validate_install_dest` and `resolve_install_dest` of system/oil/src/util/security.rs are Oil.Dest.
--   Oil.FilePath has what the code uses of `std::path` on Unix.
-- * Oil.Download is `validate_download_url` and `get_validated` of the same file and `install_package` of
--   system/oil/src/main.rs, which downloads a package, checks its digest and gives it to
--   `extract_tracked`. Oil.State is the map of installed packages (system/oil/src/install.rs), and
--   Oil.Command the commands of main.rs that change it: `run_install`, which asks the resolver for an
--   order and installs in it, and in Oil.Command.Operations `run_system_add`, `run_uninstall`,
--   `plan_upgrades` and `run_upgrade`. A command is the list of what it does outside of the program.
--   Oil.Find is `contains_ignore_ascii_case` of main.rs.
-- * system/installer/src/lib.rs is Installer: Installer.Disk has `disk_identity`, Installer.Target
--   `target_metadata`, Installer.Image `install_image_inner` and Installer.Command the entry points, the
--   arguments and the exit codes. A run is a result and the calls on the target before it. The system
--   may answer anything to each call (`Answers`), so another file may stand at a path between two
--   calls.
-- * system/alpenglow-ctl/src/kernel.zig is Ctl.Kernel, with `parseArgs` in Ctl.Kernel.Arguments. A run is
--   the list of its calls of the system and the error that ended it. Ctl.Kernel.State has what the calls
--   leave in a file.
--
-- What these sources do not define is a parameter: `init`, the fit addon, what the terminal has (options,
-- `resize`, `observeResize`), `toLowerCase` and the message of a URIError are fields of `Platform`;
-- the renderer of React, the URL parser, `tryServeStatic` and the bundler are arguments of the
-- functions that use them; answers of servers and the import of the emulator are events. For oil:
-- `memchr`, the decoder of gzip, the readers of archives, the cryptographic check of a signature, the
-- files of keys and the environment are arguments (`Host` has them for Oil.Apk, `Network`
-- and `TempFile` for Oil.Download, `World` for Oil.Command). For the installer: what the calls of the
-- system and the decoder of zstd answer, `libc::major` and `libc::minor` (`System`), and the screen. For
-- Ctl: the policy that was read, and which calls of the system succeed.
--
-- Every function is total. Most recur on a list or a text. Five loops of oil recur on fuel: the search
-- for dependencies, with the number of packages and one (a search that ends without it is an outcome of
-- its own, which Oil.Resolver.Resolve excludes); the search for the starts of streams, with the number of
-- bytes and one (Oil.Streams.Search); the search of an archive, with the same (Oil.Index.Safe); the search
-- for a part of a text, with the same (Oil.Find.Naive); and the marking of parent directories, with the
-- number of components and one (Oil.Extract.Marks).
--
-- Not modelled: site/public/v86/libv86.mjs, the emulator, which is a copy of another project's; the
-- rest of the directory system (of oil the command line, `run_reinstall`, the JSON of its state, recipes,
-- taps, caches and snapshots; the screens of the installer; of alpenglow-ctl the memory, pressure and
-- network programs; init, the kernel's and the appliance's configuration) and scripts, which are input and
-- output or programs of their own; what `oil` prints, but for dry runs; errors of the reader of an archive
-- between its entries; that a list in oil may be longer than a machine word counts (Oil.Index has the
-- check); the attributes of fonts and layout that a browser draws; directories without files in the build;
-- and `console.log` lines of build and server.
pub mod Prelude
pub mod Double
pub mod Uri
pub mod Shell
pub mod Site
pub mod Oil
pub mod Installer
pub mod Ctl
