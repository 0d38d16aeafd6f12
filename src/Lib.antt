-- ===== src/Lib.antt =====
-- A verification library for mb-printer-cli, the local print service and its cloud agent.
--
-- The program's parts and the files that model them:
--
-- Job, Job/Cancellation: the print job of src/jobs.rs (`JobState`, `Job::new`, `request_cancel`,
--   `finish_cancellation`, `terminal`).
-- Api/Jobs: the jobs that the local API retains (src/api/jobs.rs, and `cancel_cloud_job` of
--   src/api.rs). Retention has `load_jobs` and `save_jobs`; Admission the part of
--   `JobExecutor::submit` under the lock on the jobs and the look-up before it; Worker the closure
--   that executes a job, `cancel_job` and `get_job`; Batch `batch_position`. A submission enters the
--   job under the lock, registers its event channel and cancellation flag after it, and hands a copy
--   of the job to a worker, which replaces the retained job at its end only. Steps has these
--   critical sections as a step relation on `Service`, which stands for the `ApiState` of the
--   source; `workers` there holds the copies that the workers own. The registrations of the channel and of
--   the flag, the raising of the flag and the change of the job by a cancellation, and the reading of the
--   flag and the last write by a worker are steps of their own. The lock that lets one worker at a time
--   use a connection is left out: it only removes orders of steps.
--   Submission has the checks of `submit` before the rendering, Continuous those of
--   `continuous_protocol_options` with the counts of labels, and Render `api_render_for_printer`, which
--   calls Raster and the SDK. Steps/Lifecycle has the abstract machine that a client sees for one
--   identifier.
-- Api/Errors: `ApiError` of src/api.rs.
-- Api/Guards: the checks of host, origin and token of src/api.rs, and its handlers of grants, which call
--   the store of Auth.
-- Api/Wireless: `brother_wireless_prepare` and `brother_wireless_configure` of src/api.rs. They call
--   Api/Guards and the approvals of Auth/Wifi; the device is a parameter, and the command that is sent to
--   it a part of the outcome.
-- Auth: the pairing secrets, grants and Wi-Fi approvals of src/auth.rs, one function for each method
--   of `AuthStore`. A call takes a `World`: the readings of the clock, the outcome of each write of
--   the file, and the random texts. Machine runs any sequence of calls, each in a world of its own.
-- Cloud/Request, Cloud/Store: the print request and the durable job store of src/cloud/store.rs.
-- Cloud/Agent: `status`, `safe_error_code`, `receive_job`, `report_job` and the delay of `run` of
--   src/cloud/agent.rs. `receive_job` stores a delivery through Cloud/Store and hands it to the local
--   API, whose answer is an argument; `report_job` takes one observation of the local API for each
--   turn of its loop.
-- Printers: the endpoints and the printer store of src/printers.rs.
-- Device: the codecs of src/device.rs: IPP messages (Ipp), the PJL commands for Wi-Fi (Wifi), the status
--   of Brother printers (Status), and lengths in HTTP and Bluetooth (Http).
-- Raster: `scale_to_width`, `fit_to_box` and `tiles` of src/raster.rs. An index out of range, an
--   overflow of a u32 and a failed debug assertion are `none`.
-- Transport: `CaptureTransport` of src/transport.rs, and the `Cancellable` of src/api/jobs.rs over any
--   transport, whose flag stands in the state.
-- Laposte: the formats, grids and slots of src/laposte.rs.
-- Common: Boolean tests, lists, finite maps, texts, stable sorting and results.
-- Tests: concrete runs.
--
-- Representation. Identifiers are natural numbers, so the order of UUIDs is the order of numbers.
-- Texts are lists of Unicode code points; lowercase is that of ASCII, and the one place that needs
-- the table of Unicode (`add` of Printers/Store) takes it as an argument. A HashMap is an association
-- list in which a new key comes last, so that its iteration has one fixed order; a BTreeMap is kept in
-- order of its keys. JSON values, f64 options and paths stand as their text or bits. The additions of
-- seconds saturate at 64 bits, and casts to u32, u16 and u8 keep their checks or their wrap-around.
-- A search for a grant takes one reading of the clock for all grants, where the source reads it for
-- each; Machine has the calls of one process, and the writes of another process to the same file, which
-- the command line makes, come in only as the file that a store starts from.
-- A loop over a sequence of calls, sessions or observations is a function of that sequence. The loop
-- of `parse_ipp`, in which an index out of range is `none`, takes as fuel one more than the number of bytes, of which each turn consumes one at
-- least; all other functions are structurally recursive.
--
-- Parameters: the crates uuid, sha2, base64, serde_json and http (`Wire` of Cloud/Request, `Crates` of
-- Auth/Types). Of these only base64 is assumed to do something: that it decodes what it encoded
-- (`Decodes`). The SDK stands as `Library` of Api/Jobs/Submission (documents, printers, limits), `Sdk`
-- of Api/Jobs/Render (rendering) and `Transport`; the conversions of UTF-8 are the arguments `lossy` and
-- `utf8` of Device; the arithmetic of f64 is `Floats`. Nothing is assumed of them.
--
-- Not modelled: HTTP routing and the other handlers, the protocol plans of the SDK and the options that
-- `submit` gives them, PDF and SVG, device input and output, discovery, the command line, and the format of files. A
-- write of a file either takes place whole or leaves the old file, as the renaming in the source does.
pub mod Common
pub mod Job
pub mod Auth
pub mod Cloud
pub mod Api
pub mod Printers
pub mod Device
pub mod Raster
pub mod Transport
pub mod Laposte
pub mod Tests
