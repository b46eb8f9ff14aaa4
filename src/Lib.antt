-- ===== src/Lib.antt =====
-- The program reads the bytes that a Colorado swimming scoreboard sends over a serial line, and
-- publishes the lanes' times, the running time, starts and stops, headers and rounds as messages of an
-- MQTT broker. This library models the C++ code from the bytes that are read to the messages that are
-- handed to the broker, and the command line.
--
-- The parts, in the order in which a byte passes them, with the files of the repository:
--   SerialPort   receiver/read.cpp: read, the loop over read(2) that forwards what it reads to a second
--                port (Write) and puts each byte into the receiver.
--   Ftdi         receiver/readFTDI.cpp: openFtdiHanlde, and readftdi with its loop, which reads one
--                device, prints to a stream of rawdata.txt, and writes blocks to a second device.
--   Gpio         receiver/readGPIO.cpp: the read that is built for a Raspberry Pi.
--   WinPort      receiver/readwin.cpp: the read that is built for Windows, with the setup of its ports.
--   Termios      utils/setInterface.cpp: set_interface_attribs; setAttributesOnSerial and see_speed of
--                receiver/read.cpp.
--   Sender       sender/send.cpp: texts written to a port, each with a semicolon behind it.
--   WinSend      sender/sendwin.cpp: the send that is built for Windows.
--   Listener     serialconnect/listener.cpp: startListen, which begins reading anew until the program
--                is stopped; Listener.Restart is what it finds when it does, as read.cpp closes no
--                port, and WinPort.Restart the same for readwin.cpp.
--   Device       what startListen reads from, as an interface that the readers of all builds fill: the
--                serial port, the FTDI device, the GPIO and the Windows port.
--   Control      main.cpp's intHandler and the loops over `running` in startListen and the readers, as
--                a step relation: each step is the program's or the signal's, and carries the bytes
--                that it puts into the program. Control.Attempts are the attempts that a run
--                makes, read off its steps: what startListen of Listener takes as its argument.
--   Program      utils/data.cpp: dataInit, dataClean and dataStart; put_byte is putReadData with its
--                calls of mqtt_send.
--   Protocol     serialconnect/analyseData.cpp: putReadData as put_read_data, with finish for what an
--                address byte does with the channel before it, process for the loop over the digits and
--                the analysis, restart for the address byte itself, and collect for any other byte. The
--                record Receiver holds the file's globals. Protocol.Link is the independent description:
--                the stream as frames, with no buffer, counter or flag.
--   Board        the analysers that putReadData calls by channel, with their globals side by side;
--                Board.Score is the scoreboard as it is meant, without buffers, and
--                Protocol.Decode the rows that the frames of a stream decode.
--   Lane         serialconnect/analyseLane.cpp: getLaneTime and resetAllData on the lanes' buffers; in
--                Lane.Slot the same seen as two texts for a lane.
--   PlaceOrder   serialconnect/analyseLane.cpp with orderbyplace defined: getLaneTime with
--                lanebyplaceorder; PlaceOrder.Rows is the choice of putReadData with it, over the rows
--                of Protocol.Handed, which putReadData hands to the analysers.
--   RunningTime  serialconnect/analyseRunningTime.cpp: getTime, and the state that lets results through.
--   StartStop    serialconnect/analyseStartStop.cpp: checkStartStop.
--   Header       serialconnect/analyseHeader.cpp: getHeader.
--   Rounds       serialconnect/serialUtils.cpp: storeRounds.
--   Helper       serialconnect/helperFunctions.cpp: checkBitValue and the display line.
--   Mqtt         mqtt/mqttUtils.cpp: mqtt_connect, mqtt_send, mqtt_clean; in Mqtt.Raw
--                mqtt/raw_connect.cpp; Mqtt.Watched is the order of calls that mosquitto.h asks for.
--   CommandLine  main.cpp: the scan of the options, and what its port names point at.
--   Run          main.cpp and utils/data.cpp put together: a run from its arguments to its end.
--   Ledger       malloc and free: the blocks that a command holds, and a fault where it frees another.
--   Blocks       the memory of a run: the calls of malloc and free of initReadData, cleanReadData,
--                mqtt_send, readftdi and main, in their order, around what Run does.
--   Text         character strings: sprintf's %d, strcmp, strncpy and strcpy on the bytes of a buffer.
--   Base         shared names, tests and lists; Examples has runs at concrete inputs.
--
-- State and effects. An operation takes the globals that it changes as a record and returns them with
-- the list of the messages that it sends, in the order of the calls of mqtt_send. None of the analysers
-- looks at the result of mqtt_send, so the messages are handed to the broker behind each byte (deliver).
-- A character buffer is the list of its bytes, of the size that it is allocated with; what malloc leaves
-- in it is a parameter (Memory), and the text of a buffer ends at its first NUL. The C array accesses
-- are get_or and set; out of range a read gives the default and a write changes nothing.
--
-- Integers. A uint8_t is a natural number; in_count keeps its wrap-around at 256, masks and shifts are
-- written with remainders and quotients of powers of two, and the address test is the bitwise and. The
-- ints of the program count rows and rounds, and their overflow after 2^31 of them is not modelled.
--
-- Loops. The loops over the digits, lanes and bytes recurse on the number of rounds left or on the list,
-- so they all end; the decimal digits of a number recurse on fuel, the number and one more, which
-- is enough since each step divides by ten. The reading loops take the list of what the reads return
-- until `running` is cleared, and startListen the list of the attempts. The wait of readGPIO.cpp for
-- data recurses on fuel, since nothing bounds it; one more than the number of calls that give 0 is enough.
--
-- The signal. A step of Control takes whatever a call returns, so a run has every order of what the
-- devices give and of the signal. A turn of a reader's loop is one step: the calls that block, and the
-- wait of readGPIO.cpp, end when the device answers.
--
-- Parameters. Mosquitto holds the calls of the mosquitto library as functions on its state, and Platform
-- the constants of termios.h and the calls that set a speed. The results
-- of the operating system's, the Windows API's and the FTDI and pigpio libraries' calls, the contents
-- of fresh memory, the process id and the two port names of the generated SerialConfig.h are arguments.
--
-- Memory. malloc is taken to succeed, and gives a number that no block had before. A free of anything but
-- a block that is held is a fault, with no result behind it. The file descriptors of read.cpp are only
-- counted: open(2) fails where a process has as many as it may have. What a write behind the end of a
-- block does to the blocks beside it (Mqtt.Remote) is not modelled.
--
-- Files. The log of readFTDI.cpp is the text that is printed to the stream of rawdata.txt that was opened
-- last. The C library buffers it, and when it reaches the file is not modelled: the paths of readftdi
-- that fail never close their stream, so what its buffer still holds is written only at the program's
-- exit, over the log of a later attempt.
--
-- Not modelled: what is printed on the console, except for the display line; a malloc that fails, and the
-- memory of the libraries; the debug options; a CreateEvent of readwin.cpp that
-- fails, on which assert(o.hEvent) ends the program; exceptions; the test programs, of which 01-test-data runs
-- dataStart; and the copies of the mosquitto and FTDI libraries.
pub mod Base
pub mod Text
pub mod Ledger
pub mod Blocks
pub mod Helper
pub mod RunningTime
pub mod Lane
pub mod PlaceOrder
pub mod StartStop
pub mod Header
pub mod Rounds
pub mod Board
pub mod Protocol
pub mod Mqtt
pub mod Program
pub mod SerialPort
pub mod Ftdi
pub mod Gpio
pub mod WinPort
pub mod Listener
pub mod Termios
pub mod Sender
pub mod WinSend
pub mod CommandLine
pub mod Device
pub mod Control
pub mod Run
mod Examples
